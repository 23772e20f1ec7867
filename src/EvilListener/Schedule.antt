-- ===== src/EvilListener/Schedule.antt =====
-- tools/https_e2e/evil_listener.py: the key schedule of TLS 1.3 (RFC 8446, section 7.1).
pub mod Expanded
pub mod Derived
use c64_https.Common.{
  ℕ, zero, suc, ◌+◌, Bool, true, false, List, [], ◌∷◌, ◌++◌, length, take, replicate, ltb, is_nil,
  if◌then◌else◌, Result, ok, raised, ◌>>=◌,
}
use c64_https.EvilListener.{pack_be16, one_byte, hash_len}
use c64_https.EvilListener.Primitives.{Primitives}

module _ (p : Primitives) where
  unfoldable pub hkdf_extract : List ℕ → List ℕ → List ℕ
  hkdf_extract salt ikm = p.hmac (if is_nil salt then replicate hash_len 0 else salt) ikm

  -- The loop, with the last block `t` and all that has come `out`. A round adds a byte at least.
  unfoldable pub expand_from : ℕ → List ℕ → List ℕ → ℕ → ℕ → List ℕ → List ℕ → Result (List ℕ)
  expand_from zero prk info len counter t out = ok out
  expand_from (suc fuel) prk info len counter t out = elim (ltb (length out) len) [
    | true ↦
        (one_byte counter >>= λ c.
        let next = p.hmac prk (t ++ (info ++ c)) in
        expand_from fuel prk info len (counter + 1) next (out ++ next))
    | false ↦ ok out
  ]

  unfoldable pub hkdf_expand : List ℕ → List ℕ → ℕ → Result (List ℕ)
  hkdf_expand prk info len = do out ← expand_from len prk info len 1 [] []; ok (take len out)

  -- b"tls13 "
  abbrev pub label_prefix : List ℕ
  label_prefix = b't' ∷ b'l' ∷ b's' ∷ b'1' ∷ b'3' ∷ b' ' ∷ []

  unfoldable pub hkdf_expand_label : List ℕ → List ℕ → List ℕ → ℕ → Result (List ℕ)
  hkdf_expand_label secret label context len = do
    size ← pack_be16 len
    labelled ← one_byte (6 + length label)
    contexted ← one_byte (length context)
    hkdf_expand secret (size ++ (labelled ++ (label_prefix ++ (label ++ (contexted ++ context)))))
        len

  unfoldable pub derive_secret : List ℕ → List ℕ → List ℕ → Result (List ℕ)
  derive_secret secret label transcript_hash =
      hkdf_expand_label secret label transcript_hash hash_len
