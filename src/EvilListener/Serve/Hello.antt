-- ===== src/EvilListener/Serve/Hello.antt =====
-- tools/https_e2e/evil_listener.py: the ServerHello that `serve_one` answers a ClientHello with.
use c64_https.Common.{
  ℕ, ◌+◌, ◌/◌, ◌%◌, ◌<◌, ◌≤◌, true, List, [], ◌∷◌, ◌++◌, length, length-append, ltb, ok, raised,
  ◌≡◌, inl, inr, Bool-cases, struct_error, ok-injective, slice, refl, sym, ap, arith,
}
use mathlib.Core.Path.{subst}
use c64_https.Common.Bytes.{from_be, from_le}
use c64_https.EvilListener.{
  ct_handshake, hs_server_hello, pack_be16, one_byte, handshake, plaintext_record,
}
use c64_https.EvilListener.Reader.Cut.{IsRecord}
use c64_https.EvilListener.ClientHello.{ClientHello}
use c64_https.EvilListener.ClientHello.Parsed.{Offer}
use c64_https.EvilListener.Messages.{Server, server_hello}

-- What the server takes of an offer.
abbrev pub taken : Offer → ClientHello
taken o = record { client_random = o.random; session_id = o.session; key_share = o.shares.share }

-- A server with an x25519 share and its random bytes, and a certificate that fits a record.
abbrev pub IsServer : Server → Type 0
IsServer s = (length s.server_pub ≡ 32) × (length s.random ≡ 32) × (length s.cert_der ≤ 60000)

-- The bytes of the ServerHello behind the session id.
abbrev hello_end : Server → List ℕ
hello_end s =
    0x13 ∷ 0x03 ∷ 0 ∷ 0 ∷ 46 ∷ 0 ∷ 43 ∷ 0 ∷ 2 ∷ 3 ∷ 4 ∷ 0 ∷ 51 ∷ 0 ∷ 36 ∷ 0 ∷ 29 ∷ 0 ∷ 32
    ∷ s.server_pub

abbrev hello_message : Server → ClientHello → List ℕ
hello_message s ch =
    handshake hs_server_hello
      (3 ∷ 3 ∷ (s.random ++ (length ch.session_id ∷ (ch.session_id ++ hello_end s))))

pub server_hello-ok :
    (s : Server) (ch : ClientHello)
    → IsServer s
    → length ch.session_id < 256
    → (sh : List ℕ) × (sh_rec : List ℕ) × (server_hello s ch ≡ ok sh)
      × (plaintext_record ct_handshake sh ≡ ok sh_rec)
unfolding server_hello pack_be16 one_byte handshake plaintext_record
server_hello-ok s ch h l =
    let sid : ltb (length ch.session_id) 256 ≡ true = ground arith in
    let ks : List ℕ = 0 ∷ 29 ∷ 0 ∷ 32 ∷ s.server_pub in
    let ext : List ℕ = 0 ∷ 43 ∷ 0 ∷ 2 ∷ 3 ∷ 4 ∷ 0 ∷ 51 ∷ 0 ∷ 36 ∷ ks in
    let ks_len : pack_be16 (length ks) ≡ ok (0 ∷ 36 ∷ []) =
      let n : length ks ≡ 36 = omega (arith, h.0) in ap pack_be16 n in
    let ext_len : pack_be16 (length ext) ≡ ok (0 ∷ 46 ∷ []) =
      let n : length ext ≡ 46 = omega (arith, h.0) in ap pack_be16 n in
    let sh : List ℕ = hello_message s ch in
    let tail : List ℕ = length ch.session_id ∷ (ch.session_id ++ hello_end s) in
    let n1 = length-append s.random tail in
    let n2 = length-append ch.session_id (hello_end s) in
    let fits : ltb (length sh) 65536 ≡ true = ground (arith, h.0, h.1) in
    (
      sh,
      22 ∷ 3 ∷ 3 ∷ length sh / 256 ∷ length sh % 256 ∷ sh,
      rw (h.0, ks_len, sid, ext_len) refl,
      rw fits refl,
    )

pub plaintext_record-IsRecord :
    (msg rec : List ℕ)
    → plaintext_record ct_handshake msg ≡ ok rec
    → IsRecord rec × (rec ≡ 22 ∷ 3 ∷ 3 ∷ length msg / 256 ∷ length msg % 256 ∷ msg)
unfolding plaintext_record pack_be16 from_be from_le
plaintext_record-IsRecord msg rec h = elim (Bool-cases (ltb (length msg) 65536)) [
  | inr e ↦ absurd (let q : raised struct_error ≡ ok rec = rw e at h in cc)
  | inl e ↦
      let bytes : List ℕ = 22 ∷ 3 ∷ 3 ∷ length msg / 256 ∷ length msg % 256 ∷ msg in
      let same : bytes ≡ rec = ok-injective bytes rec (rw e at h) in
      let framed : length bytes ≡ 5 + from_be (slice 3 5 bytes) = omega arith in
      (subst IsRecord same (omega arith, framed), sym same)
]
