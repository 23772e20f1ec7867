-- ===== src/EvilListener.antt =====
-- tools/https_e2e/evil_listener.py: the TLS 1.3 server that can lie. Here are its constants and its
-- helpers for the wire; the children are its key schedule, its framing, its reader and its flight.
pub mod Framing
pub mod Primitives
pub mod Schedule
pub mod Keys
pub mod Reader
pub mod ClientHello
pub mod Messages
pub mod Serving
pub mod Flight
pub mod Client
pub mod Serve
use c64_https.Common.{
  ℕ, ◌+◌, ◌*◌, ◌/◌, ◌%◌, List, [], ◌∷◌, ◌++◌, length, ltb, if◌then◌else◌, Result, ok, raised, ◌>>=◌,
  value_error, struct_error,
}

abbrev pub ct_change_cipher_spec : ℕ
ct_change_cipher_spec = 20

abbrev pub ct_alert : ℕ
ct_alert = 21

abbrev pub ct_handshake : ℕ
ct_handshake = 22

abbrev pub ct_application_data : ℕ
ct_application_data = 23

abbrev pub hs_client_hello : ℕ
hs_client_hello = 1

abbrev pub hs_server_hello : ℕ
hs_server_hello = 2

abbrev pub hs_encrypted_extensions : ℕ
hs_encrypted_extensions = 8

abbrev pub hs_certificate : ℕ
hs_certificate = 11

abbrev pub hs_certificate_verify : ℕ
hs_certificate_verify = 15

abbrev pub hs_finished : ℕ
hs_finished = 20

abbrev pub tls_chacha20_poly1305_sha256 : ℕ
tls_chacha20_poly1305_sha256 = 0x1303

abbrev pub group_x25519 : ℕ
group_x25519 = 0x001D

abbrev pub sig_ecdsa_secp256r1_sha256 : ℕ
sig_ecdsa_secp256r1_sha256 = 0x0403

abbrev pub ext_supported_versions : ℕ
ext_supported_versions = 0x002B

abbrev pub ext_key_share : ℕ
ext_key_share = 0x0033

abbrev pub hash_len : ℕ
hash_len = 32

-- struct.pack(">H", n)
unfoldable pub pack_be16 : ℕ → Result (List ℕ)
pack_be16 n = if ltb n 65536 then ok (n / 256 ∷ n % 256 ∷ []) else raised struct_error

-- struct.unpack(">H", bs)[0], of a slice of two bytes at most
unfoldable pub unpack_be16 : List ℕ → Result ℕ
unpack_be16 (a ∷ b ∷ []) = ok (a * 256 + b)
unpack_be16 _ = raised struct_error

-- bytes([n])
unfoldable pub one_byte : ℕ → Result (List ℕ)
one_byte n = if ltb n 256 then ok (n ∷ []) else raised value_error

abbrev pub u24 : ℕ → List ℕ
u24 n = n / 65536 % 256 ∷ n / 256 % 256 ∷ n % 256 ∷ []

unfoldable pub handshake : ℕ → List ℕ → List ℕ
handshake msg_type body = msg_type ∷ (u24 (length body) ++ body)

unfoldable pub plaintext_record : ℕ → List ℕ → Result (List ℕ)
plaintext_record content_type payload = do
  len ← pack_be16 (length payload)
  ok ((content_type ∷ 0x03 ∷ 0x03 ∷ []) ++ (len ++ payload))

-- The record framings and the server's modes, by their words.
pub data RecordFrame : Type 0 where
  onepermsg mfl512 pathological : RecordFrame

pub data Mode : Type 0 where
  good bad_finished omit_cert : Mode

abbrev pub omit_cert_ee_count : ℕ
omit_cert_ee_count = 4
