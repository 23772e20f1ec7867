-- ===== src/TrustBundle/Signing.antt =====
-- ECDSA P-256 with SHA-256, as `cryptography` gives it to tools/trust_bundle.py. A signature is the
-- pair (r, s) that `decode_dss_signature` reads and `encode_dss_signature` writes.
use c64_https.Common.{ℕ, ◌≤◌, ◌<◌, ◌≡◌, Bool, true, List}

pub record Ecdsa (Private Public : Type 0) : Type 0 where
  pub public_key : Private → Public
  pub sign : Private → List ℕ → ℕ × ℕ
  pub verify : Public → ℕ × ℕ → List ℕ → Bool
  -- A signature verifies under the public half of the key that made it.
  pub verify_sign :
      (key : Private) (message : List ℕ) → verify (public_key key) (sign key message) message ≡ true
  -- Both numbers of a signature lie between 1 and the order of the group.
  pub r_range :
      (key : Private) (message : List ℕ)
      → (1 ≤ (sign key message).0)
        × ((sign key message).0
            < 0xFFFFFFFF00000000FFFFFFFFFFFFFFFFBCE6FAADA7179E84F3B9CAC2FC632551)
  pub s_range :
      (key : Private) (message : List ℕ)
      → (1 ≤ (sign key message).1)
        × ((sign key message).1
            < 0xFFFFFFFF00000000FFFFFFFFFFFFFFFFBCE6FAADA7179E84F3B9CAC2FC632551)
