-- ===== src/HardwareChecks/Leak/Search.antt =====
-- tools/ip65_hw_checks.py: what the binary search of `longest_run` finds.
use c64_https.Common.{
  ℕ, zero, suc, ◌+◌, ◌-◌, ◌/◌, ◌≤◌, take-take, ◌<◌, true, List, [], ◌∷◌, leb, ltb, leb→le, take,
  ◌≡◌, refl, sym, ◌∙◌, inl, inr, Bool-cases, true≢false, arith,
}
use mathlib.Core.Path.{subst}
use c64_https.HardwareChecks.Leak.{starts_with, is_in, search_run}

starts_with-take :
    (j : ℕ) (p hay : List ℕ) → starts_with p hay ≡ true → starts_with (take j p) hay ≡ true
unfolding starts_with take
starts_with-take zero p hay h = refl
starts_with-take (suc j) [] hay h = refl
starts_with-take (suc j) (b ∷ p) [] h = h
starts_with-take (suc j) (b ∷ p) (c ∷ hay) h = ground (arith, starts_with-take j p hay)

-- A part of what stands in a text, from its beginning on, stands there too.
is_in-take : (j : ℕ) (p hay : List ℕ) → is_in p hay ≡ true → is_in (take j p) hay ≡ true
unfolding is_in
is_in-take j p [] h = starts_with-take j p [] h
is_in-take j p (c ∷ hay) h = ground (arith, starts_with-take j p (c ∷ hay), is_in-take j p hay)

pub is_in-shorter :
    (j k : ℕ) (p hay : List ℕ) → j ≤ k → is_in (take k p) hay ≡ true → is_in (take j p) hay ≡ true
is_in-shorter j k p hay h c =
    subst (λ t. is_in t hay ≡ true) (take-take j k p h) (is_in-take j (take k p) hay c)

module _ (hay tail : List ℕ) where
  abbrev pub Hit : ℕ → Type 0
  Hit k = is_in (take k tail) hay ≡ true

  -- What the search leaves is the length of a part that stands in the text, when it begins with one.
  pub search_run-Hit :
      (n fuel lo hi found : ℕ)
      → Hit found
      → found ≤ n
      → hi ≤ n
      → Hit (search_run fuel hay tail lo hi found) × (search_run fuel hay tail lo hi found ≤ n)
  unfolding search_run
  search_run-Hit n zero lo hi found c f h = (c, f)
  search_run-Hit n (suc fuel) lo hi found c f h =
      let mid = (lo + hi) / 2 in
      elim (Bool-cases (ltb hi lo)) [
        | inl e ↦ rw (e) (c, f)
        | inr e ↦ elim (Bool-cases (is_in (take mid tail) hay)) [
          | inl t ↦ rw (e, t) (search_run-Hit n fuel (mid + 1) hi mid t (ground arith) h)
          | inr t ↦ rw (e, t) (search_run-Hit n fuel lo (mid - 1) found c f (ground arith))
        ]
      ]

  pub found-search_run :
      (fuel lo hi found : ℕ) → found < lo → found ≤ search_run fuel hay tail lo hi found
  unfolding search_run
  found-search_run zero lo hi found h = omega arith
  found-search_run (suc fuel) lo hi found h =
      let mid = (lo + hi) / 2 in
      elim (Bool-cases (ltb hi lo)) [
        | inl e ↦ rw (e) (omega arith)
        | inr e ↦ elim (Bool-cases (is_in (take mid tail) hay)) [
          | inl t ↦ rw (e, t) ground (arith, found-search_run fuel (mid + 1) hi mid (omega arith))
          | inr t ↦ rw (e, t) (found-search_run fuel lo (mid - 1) found h)
        ]
      ]

  -- With fuel for the interval, no longer part of its lengths stands in the text.
  pub search_run-max :
      (fuel lo hi found k : ℕ)
      → hi < lo + fuel
      → found < lo
      → lo ≤ k
      → k ≤ hi
      → Hit k
      → k ≤ search_run fuel hay tail lo hi found
  unfolding search_run
  search_run-max zero lo hi found k m f l h c = omega arith
  search_run-max (suc fuel) lo hi found k m f l h c =
      let mid = (lo + hi) / 2 in
      elim (Bool-cases (ltb hi lo)) [
        | inl e ↦ ground arith
        | inr e ↦ elim (Bool-cases (is_in (take mid tail) hay)) [
          | inl t ↦ elim (Bool-cases (leb k mid)) [
            | inl s ↦
                rw (e, t) (ground (arith, found-search_run fuel (mid + 1) hi mid (omega arith)))
            | inr s ↦
                rw (e, t)
                  (search_run-max fuel (mid + 1) hi mid k (ground arith) (omega arith)
                    (ground arith) h c)
          ]
          | inr t ↦ elim (Bool-cases (leb mid k)) [
            | inl s ↦
                absurd (true≢false (sym (is_in-shorter mid k tail hay (leb→le mid k s) c) ∙ t))
            | inr s ↦
                rw (e, t)
                  (search_run-max fuel lo (mid - 1) found k (ground arith) f l (ground arith) c)
          ]
        ]
      ]
