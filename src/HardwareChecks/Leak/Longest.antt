-- ===== src/HardwareChecks/Leak/Longest.antt =====
-- tools/ip65_hw_checks.py: `longest_run` finds the longest run of one text in another.
use c64_https.Common.{
  ℕ, zero, suc, ◌+◌, ◌≤◌, true, none, some, List, [], ◌∷◌, leb, ltb, length, take, drop, drop-drop,
  ◌≡◌, refl, sym, ap, ◌∙◌, ◌⊎◌, inl, inr, if_both, Bool-cases, arith,
}
use mathlib.Core.Path.{subst}
use c64_https.HardwareChecks.Leak.{
  Run, better, starts_with, is_in, search_run, runs_from, longest_run,
}
use c64_https.HardwareChecks.Leak.Search.{search_run-Hit, search_run-max}

better-best : (r : Run) (found start : ℕ) → r.0 ≤ (better r found start).0
better-best r found start = ground arith

better-found : (r : Run) (found start : ℕ) → found ≤ (better r found start).0
better-found r found start = ground arith

best-runs_from :
    (hay needle : List ℕ) (start : ℕ) (best : Run) → best.0 ≤ (runs_from hay needle start best).0
unfolding runs_from
best-runs_from hay [] start best = omega arith
best-runs_from hay (b ∷ tail) start best =
    let best' : Run =
      better best (search_run (suc (length tail)) hay (b ∷ tail) (best.0 + 1) (suc (length tail)) 0)
        start in
    if_both (λ r. best.0 ≤ r.0) (leb (suc (length tail)) best.0) best
      (runs_from hay tail (start + 1) best') (omega arith)
      (ground (
        arith,
        best-runs_from hay tail (start + 1) best',
        better-best best
            (search_run (suc (length tail)) hay (b ∷ tail) (best.0 + 1) (suc (length tail)) 0)
            start,
      ))

runs_from-max :
    (hay needle : List ℕ) (start : ℕ) (best : Run) (i k : ℕ)
    → i + k ≤ length needle
    → is_in (take k (drop i needle)) hay ≡ true
    → k ≤ (runs_from hay needle start best).0
unfolding runs_from drop
runs_from-max hay [] start best i k l c = ground arith
runs_from-max hay (b ∷ tail) start best zero k l c =
    let n = suc (length tail) in
    let found : ℕ = search_run n hay (b ∷ tail) (best.0 + 1) n 0 in
    elim (Bool-cases (leb n best.0)) [
      | inl e ↦ rw (e) (ground arith)
      | inr e ↦ rw (e) (elim (Bool-cases (leb k best.0)) [
        | inl s ↦ ground (
          arith,
          better-best best found start,
          best-runs_from hay tail (start + 1) (better best found start),
        )
        | inr s ↦ ground (
          arith,
          search_run-max hay (b ∷ tail) n (best.0 + 1) n 0 k (omega arith) (omega arith)
              (ground arith) (omega arith) c,
          better-found best found start,
          best-runs_from hay tail (start + 1) (better best found start),
        )
      ])
    ]
runs_from-max hay (b ∷ tail) start best (suc i) k l c =
    let n = suc (length tail) in
    let found : ℕ = search_run n hay (b ∷ tail) (best.0 + 1) n 0 in
    elim (Bool-cases (leb n best.0)) [
      | inl e ↦ rw (e) (ground arith)
      | inr e ↦
          rw (e) (runs_from-max hay tail (start + 1) (better best found start) i k (omega arith) c)
    ]

is_in-nil : (hay : List ℕ) → is_in [] hay ≡ true
unfolding is_in starts_with
is_in-nil [] = refl
is_in-nil (c ∷ hay) = refl

abbrev pub IsRun : List ℕ → List ℕ → Run → Type 0
IsRun hay needle r =
    (r ≡ (0, none))
    ⊎ ((i : ℕ) × (r.1 ≡ some i)
        × (i + r.0 ≤ length needle)
        × (is_in (take r.0 (drop i needle)) hay ≡ true))

runs_from-IsRun :
    (hay whole needle : List ℕ) (start : ℕ) (best : Run)
    → drop start whole ≡ needle
    → start + length needle ≡ length whole
    → IsRun hay whole best
    → IsRun hay whole (runs_from hay needle start best)
unfolding runs_from drop
runs_from-IsRun hay whole [] start best d l h = h
runs_from-IsRun hay whole (b ∷ tail) start best d l h =
    let n = suc (length tail) in
    let found : ℕ = search_run n hay (b ∷ tail) (best.0 + 1) n 0 in
    let hits : (is_in (take found (b ∷ tail)) hay ≡ true) × (found ≤ n) =
      search_run-Hit hay (b ∷ tail) n n (best.0 + 1) n 0 (is_in-nil hay) (omega arith)
        (omega arith) in
    if_both (IsRun hay whole) (leb n best.0) best
      (runs_from hay tail (start + 1) (better best found start)) h
      (runs_from-IsRun hay whole tail (start + 1) (better best found start)
        (sym (drop-drop 1 start whole) ∙ ap (drop 1) d) (omega arith)
        (if_both (IsRun hay whole) (ltb best.0 found) (found, some start) best
          (inr (
            start,
            refl,
            ground (arith, hits.1),
            subst (λ t. is_in (take found t) hay ≡ true) (sym d) hits.0,
          ))
          h))

-- The run that `longest_run` reports is one of `needle` in `hay`, at the offset that it reports, unless it
-- is empty; and no run of `needle` in `hay` is longer.
pub longest_run-IsRun :
    (hay needle : List ℕ) (i k : ℕ)
    → i + k ≤ length needle
    → is_in (take k (drop i needle)) hay ≡ true
    → IsRun hay needle (longest_run hay needle) × (k ≤ (longest_run hay needle).0)
unfolding longest_run
longest_run-IsRun hay needle i k l c = (
  runs_from-IsRun hay needle needle 0 (0, none) refl (omega arith) (inl refl),
  runs_from-max hay needle 0 (0, none) i k l c,
)
