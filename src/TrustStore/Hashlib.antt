-- ===== src/TrustStore/Hashlib.antt =====
-- The one hash function of `hashlib` that the tools call, SHA-256, which the repository does not
-- implement in Python: a function on byte strings whose digests have 32 bytes.
use c64_https.Common.{ℕ, ◌≡◌, List, length, All}
use c64_https.Common.Bytes.{IsByte}

pub record Hash : Type 0 where
  pub digest : List ℕ → List ℕ
  pub length_digest : (message : List ℕ) → length (digest message) ≡ 32
  pub digest_bytes : (message : List ℕ) → All IsByte (digest message)
