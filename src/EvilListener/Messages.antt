-- ===== src/EvilListener/Messages.antt =====
-- tools/https_e2e/evil_listener.py: the server's handshake messages. What the constructor reads from the
-- two files, the server's x25519 share and its random bytes are given.
pub mod Sizes
use Prim.Native.Nat.{bit_xor}
use c64_https.Common.{
  ℕ, ◌+◌, Bool, true, false, List, [], ◌∷◌, ◌++◌, length, take, replicate, Result, ok, ◌>>=◌,
}
use c64_https.Common.Bytes.{index}
use c64_https.EvilListener.{
  Mode, good, bad_finished, omit_cert, RecordFrame, hs_server_hello, hs_encrypted_extensions,
  hs_certificate, hs_certificate_verify, hs_finished, tls_chacha20_poly1305_sha256, group_x25519,
  sig_ecdsa_secp256r1_sha256, ext_supported_versions, ext_key_share, hash_len, pack_be16, one_byte,
  u24, handshake,
}
use c64_https.EvilListener.Primitives.{Primitives}
use c64_https.EvilListener.Schedule.{hkdf_expand_label}
use c64_https.EvilListener.ClientHello.{ClientHello}

-- `random` is what os.urandom(32) gives.
pub record Server : Type 0 where
  pub mode : Mode
  pub record_frame : RecordFrame
  pub body : List ℕ
  pub cert_der : List ℕ
  pub server_pub : List ℕ
  pub random : List ℕ

unfoldable pub server_hello : Server → ClientHello → Result (List ℕ)
server_hello s ch = do
  versions ← pack_be16 ext_supported_versions
  versions_len ← pack_be16 2
  group ← pack_be16 group_x25519
  pub_len ← pack_be16 (length s.server_pub)
  let ks = group ++ (pub_len ++ s.server_pub)
  key_share ← pack_be16 ext_key_share
  ks_len ← pack_be16 (length ks)
  let ext = versions ++ (versions_len ++ (0x03 ∷ 0x04 ∷ (key_share ++ (ks_len ++ ks))))
  sid_len ← one_byte (length ch.session_id)
  suite ← pack_be16 tls_chacha20_poly1305_sha256
  ext_len ← pack_be16 (length ext)
  ok (
      handshake hs_server_hello (
        0x03
        ∷ 0x03
        ∷ (s.random ++ (sid_len ++ (ch.session_id ++ (suite ++ (0 ∷ (ext_len ++ ext))))))))

abbrev pub encrypted_extensions : List ℕ
encrypted_extensions = handshake hs_encrypted_extensions (0 ∷ 0 ∷ [])

unfoldable pub certificate : Server → List ℕ
certificate s =
    let entry = u24 (length s.cert_der) ++ (s.cert_der ++ (0 ∷ 0 ∷ [])) in
    handshake hs_certificate (0 ∷ (u24 (length entry) ++ entry))

-- b"TLS 1.3, server CertificateVerify"
abbrev pub verify_context : List ℕ
verify_context =
    b'T' ∷ b'L' ∷ b'S' ∷ b' ' ∷ b'1' ∷ b'.' ∷ b'3' ∷ b',' ∷ b' ' ∷ b's' ∷ b'e' ∷ b'r' ∷ b'v' ∷ b'e'
    ∷ b'r' ∷ b' ' ∷ b'C' ∷ b'e' ∷ b'r' ∷ b't' ∷ b'i' ∷ b'f' ∷ b'i' ∷ b'c' ∷ b'a' ∷ b't' ∷ b'e'
    ∷ b'V' ∷ b'e' ∷ b'r' ∷ b'i' ∷ b'f' ∷ b'y' ∷ []

-- b"finished"
abbrev pub finished_label : List ℕ
finished_label = b'f' ∷ b'i' ∷ b'n' ∷ b'i' ∷ b's' ∷ b'h' ∷ b'e' ∷ b'd' ∷ []

-- The verify_data that is sent: with one bit flipped under `bad_finished`.
unfoldable pub sent_data : Mode → List ℕ → Result (List ℕ × Bool)
sent_data bad_finished verify_data = do
  last ← index verify_data 31
  ok (take 31 verify_data ++ (bit_xor last 0x01 ∷ []), true)
sent_data good verify_data = ok (verify_data, false)
sent_data omit_cert verify_data = ok (verify_data, false)

module _ (p : Primitives) where
  unfoldable pub certificate_verify : List ℕ → Result (List ℕ)
  certificate_verify transcript_hash = do
    let sig = p.sign (replicate 64 0x20 ++ (verify_context ++ (0 ∷ transcript_hash)))
    scheme ← pack_be16 sig_ecdsa_secp256r1_sha256
    sig_len ← pack_be16 (length sig)
    ok (handshake hs_certificate_verify (scheme ++ (sig_len ++ sig)))

  unfoldable pub finished : Mode → List ℕ → List ℕ → Result (List ℕ × Bool)
  finished mode secret transcript_hash = do
    finished_key ← hkdf_expand_label p secret finished_label [] hash_len
    sent ← sent_data mode (p.hmac finished_key transcript_hash)
    ok (handshake hs_finished sent.0, sent.1)
