-- ===== src/HardwareChecks/Records/Framing.antt =====
-- tools/ip65_hw_checks.py: `parse_tls_records` reads back the records that a stream is made of.
use c64_https.Common.{
  ℕ, zero, suc, ◌+◌, ◌-◌, ◌*◌, ◌/◌, ◌%◌, ◌≤◌, ◌<◌, true, false, List, [], ◌∷◌, ◌++◌, ltb, length,
  length-append, take, drop, All, take-append_length, drop-append_length, ◌≡◌, refl, sym, ap, ◌∙◌,
  arith,
}
use mathlib.Core.Path.{subst}
use mathlib.Core.List.{append_assoc}
use c64_https.Common.Bytes.{from_be, from_le}
use c64_https.HardwareChecks.Capture.{be_at}
use c64_https.HardwareChecks.Records.{
  TlsRecord, is_content, is_header, tls_records_from, parse_tls_records,
}

-- A record as it is sent: its content type, the low byte of its version, and its body.
pub record Sent : Type 0 where
  pub content_type : ℕ
  pub minor : ℕ
  pub body : List ℕ

-- The bytes of a record of TLS: the type, the version 3.x, the length in two bytes, and the body.
abbrev pub sent_bytes : Sent → List ℕ
sent_bytes r = r.content_type ∷ 0x03 ∷ r.minor ∷ length r.body / 256 ∷ length r.body % 256 ∷ r.body

unfoldable pub sent_stream : List Sent → List ℕ
sent_stream [] = []
sent_stream (r ∷ rs) = sent_bytes r ++ sent_stream rs

-- What is to be read of a record that begins at `off`.
abbrev pub received : ℕ → Sent → TlsRecord
received off r = record {
  content_type = r.content_type;
  version = 0x03 * 256 + r.minor;
  len = length r.body;
  body = r.body;
  offset = off;
}

unfoldable pub received_from : ℕ → List Sent → List TlsRecord
received_from off [] = []
received_from off (r ∷ rs) = received off r ∷ received_from (off + (5 + length r.body)) rs

abbrev pub IsSendable : Sent → Type 0
IsSendable r = (is_content r.content_type ≡ true) × (r.minor < 256) × (length r.body ≤ 0x4000 + 256)

module _ (r : Sent) (rest : List ℕ) where
  abbrev stream : List ℕ
  stream = sent_bytes r ++ rest

  be_at-length : be_at 3 2 stream ≡ length r.body
  unfolding from_be from_le
  be_at-length = omega arith

  be_at-version : be_at 1 2 stream ≡ 0x03 * 256 + r.minor
  unfolding from_be from_le
  be_at-version = omega arith

  is_header_lem : IsSendable r → is_header stream ≡ true
  unfolding is_header
  is_header_lem h =
      let v : be_at 1 2 stream / 256 ≡ 3 = ap (λ n. n / 256) be_at-version ∙ omega arith in
      rw (be_at-length, v, h.0) (ground arith)

  body_lem : take (5 + length r.body - 5) (drop 5 stream) ≡ r.body
  body_lem = take-append_length (5 + length r.body - 5) r.body rest (omega arith)

  rest_lem : drop (5 + length r.body) stream ≡ rest
  rest_lem = drop-append_length (5 + length r.body) (sent_bytes r) rest (omega arith)

  step_lem :
      (fuel off : ℕ)
      → IsSendable r
      → tls_records_from (suc fuel) off stream
        ≡ received off r ∷ tls_records_from fuel (off + (5 + length r.body)) rest
  unfolding tls_records_from
  step_lem fuel off h =
      let long : ltb (length stream) 5 ≡ false = ground arith in
      let whole : ltb (length stream) (5 + length r.body) ≡ false =
        ground (arith, length-append r.body rest) in
      rw (long, is_header_lem h, be_at-length, whole, be_at-version, body_lem, rest_lem) refl

-- With fuel for each byte, the loop reads what was sent, and passes over what is too short for a header.
tls_records_from-received_from :
    (fuel off : ℕ) (rs : List Sent) (tail : List ℕ)
    → All IsSendable rs
    → length tail < 5
    → length (sent_stream rs ++ tail) ≤ fuel
    → tls_records_from fuel off (sent_stream rs ++ tail) ≡ received_from off rs
unfolding tls_records_from sent_stream received_from
tls_records_from-received_from zero off [] tail v t h = refl
tls_records_from-received_from zero off (r ∷ rs) tail v t h = absurd (omega arith)
tls_records_from-received_from (suc fuel) off [] tail v t h = ground arith
tls_records_from-received_from (suc fuel) off (r ∷ rs) tail v t h =
    let more : List ℕ = sent_stream rs ++ tail in
    subst (λ b. tls_records_from (suc fuel) off b ≡ received_from off (r ∷ rs))
      (sym (append_assoc (sent_bytes r) (sent_stream rs) tail))
      (step_lem r more fuel off v.0
        ∙ ap (λ t. received off r ∷ t)
            (tls_records_from-received_from fuel (off + (5 + length r.body)) rs tail v.1 t (
              ground (
                arith,
                length-append (sent_bytes r) more,
                ap length (append_assoc (sent_bytes r) (sent_stream rs) tail),
              ))))

-- The parser reads back the records that were sent, in their order, with their offsets in the stream,
-- and passes over the bytes of a header that has not come in whole.
pub parse_tls_records-sent_stream :
    (rs : List Sent) (tail : List ℕ)
    → All IsSendable rs
    → length tail < 5
    → parse_tls_records (sent_stream rs ++ tail) ≡ received_from 0 rs
unfolding parse_tls_records
parse_tls_records-sent_stream rs tail v t =
    tls_records_from-received_from (length (sent_stream rs ++ tail)) 0 rs tail v t (omega arith)
