-- ===== src/TrustBundle/Regex.antt =====
-- The part of Python's `re` that tools/trust_bundle.py uses: `fullmatch` of a pattern made of classes
-- of characters, sequence, choice, `?` and `*`, by derivatives.
use c64_https.Common.{ℕ, Bool, true, false, ◌&&◌, ◌||◌, List, [], ◌∷◌, if◌then◌else◌}

pub data Re : Type 0 where
  fail : Re
  eps : Re
  char_class : (ℕ → Bool) → Re
  seq : Re → Re → Re
  alt : Re → Re → Re
  star : Re → Re

-- Does the pattern match the empty string?
unfoldable pub nullable : Re → Bool
nullable fail = false
nullable eps = true
nullable (char_class p) = false
nullable (seq a b) = nullable a && nullable b
nullable (alt a b) = nullable a || nullable b
nullable (star a) = true

-- The pattern that matches `s` exactly when `r` matches `c` followed by `s`.
unfoldable pub deriv : ℕ → Re → Re
deriv c fail = fail
deriv c eps = fail
deriv c (char_class p) = if p c then eps else fail
deriv c (seq a b) = if nullable a then alt (seq (deriv c a) b) (deriv c b) else seq (deriv c a) b
deriv c (alt a b) = alt (deriv c a) (deriv c b)
deriv c (star a) = seq (deriv c a) (star a)

unfoldable pub fullmatch : Re → List ℕ → Bool
unfolding nullable deriv
fullmatch r [] = nullable r
fullmatch r (c ∷ cs) = fullmatch (deriv c r) cs
