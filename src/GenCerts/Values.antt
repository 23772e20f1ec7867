-- ===== src/GenCerts/Values.antt =====
-- tools/package/listener/gen_certs.py: what `_tlv` writes, and what the reader makes of it.
use c64_https.Common.{
  ℕ, ◌+◌, ◌^◌, ◌≤◌, ◌<◌, true, List, ◌∷◌, ◌++◌, length, length-append, drop, take, slice,
  take-append_length, drop-append_length, ltb, ok, ◌≡◌, inl, inr, refl, ap, ◌∙◌, arith,
}
use mathlib.Core.List.{append_assoc}
use c64_https.HardwareChecks.Positions.{slice_lem}
use c64_https.GenCerts.{single, tlv, tlv_at, read_tlv}
use c64_https.GenCerts.Lengths.{IsLength, der_len-IsLength, read_tlv-short, read_tlv-long}

-- The bytes of a tag, a length and a value.
abbrev pub IsTlv : ℕ → List ℕ → List ℕ → Type 0
IsTlv tag body bytes = (len : List ℕ) × IsLength (length body) len × (bytes ≡ (tag ∷ len) ++ body)

pub tlv-IsTlv :
    (tag : ℕ) (body : List ℕ)
    → tag < 256
    → length body < 2 ^ 32
    → (bytes : List ℕ) × (tlv tag body ≡ ok bytes) × IsTlv tag body bytes
unfolding tlv single
tlv-IsTlv tag body t h =
    let (len, made, is) = der_len-IsLength (length body) h in
    let byte : ltb tag 256 ≡ true = ground arith in
    ((tag ∷ len) ++ body, rw (byte, made) refl, (len, is, refl))

pub length-IsTlv :
    (tag : ℕ) (body bytes : List ℕ)
    → IsTlv tag body bytes
    → (2 + length body ≤ length bytes) × (length bytes ≤ length body + 6)
length-IsTlv tag body bytes (len, is, e) =
    let n = length-append (tag ∷ len) body in
    let m = ap length e in
    elim is [
      | inl (_, one) ↦ let k = ap length one in (omega arith, omega arith)
      | inr (w, more, first, l, few, _) ↦ let k = ap length first in (omega arith, omega arith)
    ]

-- At a place where these bytes stand, the reader finds the tag, the value and the place behind it.
pub read_tlv-IsTlv :
    (buf : List ℕ) (off tag : ℕ) (body bytes rest : List ℕ)
    → IsTlv tag body bytes
    → drop off buf ≡ bytes ++ rest
    → (start : ℕ) × (read_tlv buf off ≡ ok (tlv_at tag start (length body)))
      × (drop start buf ≡ body ++ rest)
      × (start + length body ≡ off + length bytes)
read_tlv-IsTlv buf off tag body bytes rest (len, is, e) at =
    let at' : drop off buf ≡ (tag ∷ len) ++ (body ++ rest) =
      at ∙ ap (λ t. t ++ rest) e ∙ append_assoc (tag ∷ len) body rest in
    let n = length-append (tag ∷ len) body in
    let m = ap length e in
    elim is [
      | inl (small, one) ↦
          let (got, there) =
            read_tlv-short buf off tag (length body) len (body ++ rest) at' small one in
          (off + 2, got, there, let k = ap length one in omega arith)
      | inr (w, more, first, l, few, back) ↦
          let (got, there) =
            read_tlv-long buf off tag (length body) len (body ++ rest) at' w more first l few
              back in
          (off + 2 + w, got, there, let k = ap length first in omega arith)
    ]

pub slice_value :
    (buf : List ℕ) (start : ℕ) (body rest : List ℕ)
    → drop start buf ≡ body ++ rest
    → slice start (start + length body) buf ≡ body
slice_value buf start body rest at =
    slice_lem start (length body) buf
    ∙ ap (take (length body)) at
    ∙ take-append_length (length body) body rest refl

-- Wherever it stands in a buffer, the reader finds of what `_tlv` wrote the tag, the value and the place
-- behind it; the tag is a byte, and the value is shorter than 2 ^ 32.
pub read_tlv-tlv :
    (before rest : List ℕ) (tag : ℕ) (body : List ℕ)
    → tag < 256
    → length body < 2 ^ 32
    → (bytes : List ℕ) × (start : ℕ) × (tlv tag body ≡ ok bytes)
      × (read_tlv (before ++ (bytes ++ rest)) (length before) ≡ ok (tlv_at tag start (length body)))
      × (slice start (start + length body) (before ++ (bytes ++ rest)) ≡ body)
      × (start + length body ≡ length before + length bytes)
read_tlv-tlv before rest tag body t h =
    let (bytes, made, is) = tlv-IsTlv tag body t h in
    let buf : List ℕ = before ++ (bytes ++ rest) in
    let (start, got, there, next) =
      read_tlv-IsTlv buf (length before) tag body bytes rest is
        (drop-append_length (length before) before (bytes ++ rest) refl) in
    (bytes, start, made, got, slice_value buf start body rest there, next)
