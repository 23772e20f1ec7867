-- ===== src/BodyChecks/Exit/Laws.antt =====
-- tools/http_body_checks.py: when the run passes, and what the check on the clock can and cannot do.
use c64_https.Common.{ℕ, ◌≡◌, ◌≢◌, refl, ◌↔◌, Bool, true, Option, none, some, if◌then◌else◌, arith}
use c64_https.BodyChecks.Verdicts.{Verdict, pass, inconclusive}
use c64_https.BodyChecks.{check_kex_group}
use c64_https.BodyChecks.Exit.{decide_exit, exit_pass, exit_fail, exit_inconclusive}

-- The check was made and its verdict is a pass.
abbrev pub Passed : Option Verdict → Type 0
Passed none = ⊥
Passed (some v) = v.status ≡ pass

-- Either no group is required, or the one that was read is the one required.
abbrev pub KexMatches : Option ℕ → Option ℕ → Type 0
KexMatches kex none = Unit {0}
KexMatches kex (some required) = kex ≡ some required

abbrev pub Settled : Option Verdict → Type 0
Settled none = ⊥
Settled (some v) = v.status ≢ inconclusive

-- Passing needs every check that may be missing.
shadow_made :
    (b : Bool) (w t c : Option Verdict) (k r : Option ℕ) → decide_exit b none w t c k r ≢ exit_pass
unfolding decide_exit
shadow_made b none t c k r h = omega arith
shadow_made b (some w) t c k none h = ground arith
shadow_made b (some w) t c k (some r) h = ground arith

pass_parts :
    (b : Bool) (v w t c : Option Verdict) (k r : Option ℕ)
    → decide_exit b v w t c k r ≡ exit_pass
    → (b ≡ true) × Settled w × Passed v × Passed t × Passed c × KexMatches k r
unfolding decide_exit check_kex_group
pass_parts b v none t c k r h = absurd (omega arith)
pass_parts b none (some w) t c k r h = absurd (shadow_made b (some w) t c k r h)
pass_parts b (some v) (some w) none c k none h = absurd (ground arith)
pass_parts b (some v) (some w) none c k (some r) h = absurd (ground arith)
pass_parts b (some v) (some w) (some t) none k none h = absurd (ground arith)
pass_parts b (some v) (some w) (some t) none k (some r) h = absurd (ground arith)
pass_parts b (some v) (some w) (some t) (some c) k none h =
    (ground arith, (λ e. ground arith), ground arith, ground arith, ground arith, tt)
pass_parts b (some v) (some w) (some t) (some c) none (some r) h = absurd (ground arith)
pass_parts b (some v) (some w) (some t) (some c) (some k) (some r) h =
    (ground arith, (λ e. ground arith), ground arith, ground arith, ground arith, ground arith)

parts_pass :
    (b : Bool) (v w t c : Option Verdict) (k r : Option ℕ)
    → (b ≡ true)
    → Settled w
    → Passed v
    → Passed t
    → Passed c
    → KexMatches k r
    → decide_exit b v w t c k r ≡ exit_pass
unfolding decide_exit check_kex_group
parts_pass b (some v) (some w) (some t) (some c) k none hb hw hv ht hc hk = ground arith
parts_pass b (some v) (some w) (some t) (some c) none (some r) hb hw hv ht hc hk = cc
parts_pass b (some v) (some w) (some t) (some c) (some k) (some r) hb hw hv ht hc hk = ground arith
parts_pass b none w t c k r hb hw hv ht hc hk = absurd hv
parts_pass b (some v) none t c k r hb hw hv ht hc hk = absurd hw
parts_pass b (some v) (some w) none c k r hb hw hv ht hc hk = absurd ht
parts_pass b (some v) (some w) (some t) none k r hb hw hv ht hc hk = absurd hc

-- The run passes exactly when the banner is right, the fetch had settled, every check was made and
-- passed, and the key exchange group is the one required, if one is.
pub decide_exit_pass_iff :
    (banner_ok : Bool) (shadow settled status body : Option Verdict) (kex require_kex : Option ℕ)
    → (decide_exit banner_ok shadow settled status body kex require_kex ≡ exit_pass) ↔ (
        (banner_ok ≡ true)
        × Settled settled
        × Passed shadow
        × Passed status
        × Passed body
        × KexMatches kex require_kex)
unfolding decide_exit check_kex_group
decide_exit_pass_iff banner_ok shadow settled status body kex require_kex = (
  pass_parts banner_ok shadow settled status body kex require_kex,
  λ h. parts_pass banner_ok shadow settled status body kex require_kex h.0 h.1 h.2 h.3 h.4 h.5,
)

-- An inconclusive verdict on the clock gives 78 under the right banner, and otherwise a failure,
-- whatever the other checks say. One that is not inconclusive, a failure too, gives the code that a
-- pass gives.
pub decide_exit-settled :
    (banner_ok : Bool) (shadow : Option Verdict) (growing stopped : Verdict)
    (status body : Option Verdict) (kex require_kex : Option ℕ)
    → growing.status ≡ inconclusive
    → stopped.status ≢ inconclusive
    → (decide_exit banner_ok shadow (some growing) status body kex require_kex
        ≡ (if banner_ok then exit_inconclusive else exit_fail))
      × (decide_exit banner_ok shadow (some stopped) status body kex require_kex
          ≡ decide_exit banner_ok shadow
              (some (record stopped { status = pass }))
              status
              body
              kex
              require_kex)
unfolding decide_exit
decide_exit-settled b v g w t c k r hg hw = (ground arith, ground arith)

-- With the right banner and a fetch that had settled, a key exchange group that was not read, or that
-- is not the one required, gives the code of a failure, whatever the other checks say.
pub decide_exit-kex :
    (shadow settled status body : Option Verdict) (kex : Option ℕ) (required : ℕ)
    → kex ≢ some required
    → Settled settled
    → decide_exit true shadow settled status body kex (some required) ≡ exit_fail
unfolding decide_exit check_kex_group
decide_exit-kex v none t c k r h hw = refl
decide_exit-kex v (some w) t c none r h hw = ground arith
decide_exit-kex v (some w) t c (some k) r h hw = ground arith
