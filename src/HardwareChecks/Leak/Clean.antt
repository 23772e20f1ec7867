-- ===== src/HardwareChecks/Leak/Clean.antt =====
-- tools/ip65_hw_checks.py: what `check_body_not_on_wire` says of a capture that has a part of the secret.
use c64_https.Common.{
  some-injective, ℕ, zero, suc, ◌+◌, ◌≤◌, true, false, some, List, [], ◌∷◌, length, take, drop,
  get_elem?, any, any-get_elem?, is_nil, ◌≡◌, refl, sym, ◌⊎◌, inl, inr, if_both, Bool-cases,
  true≢false, arith,
}
use mathlib.Core.Path.{subst}
use c64_https.BodyChecks.Verdicts.{Verdict, has_failed, no_secret, no_control, in_clear}
use c64_https.HardwareChecks.Capture.{Frame}
use c64_https.HardwareChecks.Wire.{fail_on}
use c64_https.HardwareChecks.Leak.{
  is_in, longest_run, best_run, max_of, has_full, has_partial, secret_forms, corpora_of, sources_of,
  streams_from, check_body_not_on_wire,
}
use c64_https.HardwareChecks.Leak.Longest.{longest_run-IsRun}

longest_run-best_run :
    (c : List ℕ) (forms : List (List ℕ)) (m : ℕ) (pat : List ℕ)
    → get_elem? forms m ≡ some pat
    → (longest_run c pat).0 ≤ best_run c forms
unfolding best_run get_elem?
longest_run-best_run c [] m pat g = cc
longest_run-best_run c (p ∷ forms) zero pat g =
    subst (λ q. (longest_run c q).0 ≤ max_of (longest_run c p).0 (best_run c forms))
      (some-injective g) (ground arith)
longest_run-best_run c (p ∷ forms) (suc m) pat g =
    ground (arith, longest_run-best_run c forms m pat g)

max_of_le : (a b c : ℕ) → c ≤ b → c ≤ max_of a b
max_of_le a b c h = ground arith

part-has_partial :
    (partial_min : ℕ) (forms : List (List ℕ)) (c : List ℕ) (m : ℕ) (pat : List ℕ) (i k : ℕ)
    → has_full forms c ≡ false
    → get_elem? forms m ≡ some pat
    → i + k ≤ length pat
    → is_in (take k (drop i pat)) c ≡ true
    → partial_min ≤ k
    → has_partial partial_min forms c ≡ true
part-has_partial partial_min forms c m pat i k f g l h p =
    rw (f)
      (ground (arith, (longest_run-IsRun c pat i k l h).1, longest_run-best_run c forms m pat g))

fails :
    (frames : List Frame) (secret control : List ℕ) (partial_min : ℕ) (n : ℕ) (c : List ℕ)
    → get_elem? (corpora_of frames) n ≡ some c
    → (any (has_full (secret_forms secret)) (corpora_of frames) ≡ true)
      ⊎ (any (has_partial partial_min (secret_forms secret)) (corpora_of frames) ≡ true)
    → has_failed (check_body_not_on_wire frames secret control partial_min) ≡ true
unfolding check_body_not_on_wire streams_from sources_of is_nil
fails [] secret control partial_min n c g h = elim h [
  | inl e ↦ absurd (true≢false (sym e))
  | inr e ↦ absurd (true≢false (sym e))
]
fails (f ∷ fs) secret control partial_min n c g h =
    let Fails : Verdict → Type 0 = λ v. has_failed v ≡ true in
    if_both Fails (is_nil secret) (fail_on no_secret) _ refl (
      if_both Fails (is_nil control) (fail_on no_control) _ refl (elim h [
        | inl e ↦ rw (e) refl
        | inr e ↦
            if_both Fails (any (has_full (secret_forms secret)) (corpora_of (f ∷ fs)))
              (fail_on in_clear) _ refl (rw (e) refl)
      ]))

-- When a run of at least `partial_min` bytes of one of the encodings of the secret stands in a frame or in
-- a reassembled connection of the capture, the verdict is a failure: neither a pass nor undecided, whether or
-- not the control was found.
pub check_body_not_on_wire-has_failed :
    (frames : List Frame) (secret control : List ℕ) (partial_min : ℕ) (n m : ℕ) (c pat : List ℕ)
    (i k : ℕ)
    → get_elem? (corpora_of frames) n ≡ some c
    → get_elem? (secret_forms secret) m ≡ some pat
    → i + k ≤ length pat
    → is_in (take k (drop i pat)) c ≡ true
    → partial_min ≤ k
    → has_failed (check_body_not_on_wire frames secret control partial_min) ≡ true
unfolding check_body_not_on_wire
check_body_not_on_wire-has_failed frames secret control partial_min n m c pat i k g h l r p =
    let forms = secret_forms secret in
    let full = any (has_full forms) (corpora_of frames) in
    let part = any (has_partial partial_min forms) (corpora_of frames) in
    elim (Bool-cases (has_full forms c)) [
      | inl e ↦
          fails frames secret control partial_min n c g
            (inl (any-get_elem? (has_full forms) (corpora_of frames) n c g e))
      | inr e ↦ fails frames secret control partial_min n c g (
          inr (
            any-get_elem? (has_partial partial_min forms) (corpora_of frames) n c g
              (part-has_partial partial_min forms c m pat i k e h l r p)))
    ]
