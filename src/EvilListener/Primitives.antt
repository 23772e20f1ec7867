-- ===== src/EvilListener/Primitives.antt =====
-- The functions that tools/https_e2e/evil_listener.py calls of `hashlib`, `hmac` and `cryptography`, which
-- the repository does not implement in Python, with what is documented of them. The server's ECDSA key
-- and its x25519 key are fixed in `sign` and `exchange`.
use c64_https.Common.{ℕ, ◌+◌, ◌≤◌, List, length, All, Result, ok, ◌≡◌}
use c64_https.Common.Bytes.{IsByte}

pub record Primitives : Type 0 where
  -- hashlib.sha256(message).digest()
  pub sha256 : List ℕ → List ℕ
  -- hmac.new(key, message, hashlib.sha256).digest()
  pub hmac : List ℕ → List ℕ → List ℕ
  -- ChaCha20Poly1305(key).encrypt(nonce, plaintext, aad), and its decrypt
  pub seal : List ℕ → List ℕ → List ℕ → List ℕ → List ℕ
  pub unseal : List ℕ → List ℕ → List ℕ → List ℕ → Result (List ℕ)
  -- key.sign(message, ECDSA(SHA256()))
  pub sign : List ℕ → List ℕ
  -- private_key.exchange(X25519PublicKey.from_public_bytes(share))
  pub exchange : List ℕ → Result (List ℕ)
  pub length_sha256 : (message : List ℕ) → length (sha256 message) ≡ 32
  pub length_hmac : (key message : List ℕ) → length (hmac key message) ≡ 32
  pub hmac_bytes : (key message : List ℕ) → All IsByte (hmac key message)
  pub length_seal :
      (key nonce plaintext aad : List ℕ)
      → length (seal key nonce plaintext aad) ≡ length plaintext + 16
  pub unseal_seal :
      (key nonce plaintext aad : List ℕ)
      → unseal key nonce (seal key nonce plaintext aad) aad ≡ ok plaintext
  pub length_sign : (message : List ℕ) → length (sign message) ≤ 72
