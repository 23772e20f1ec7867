-- ===== src/BodyChecks/Stops/Knobs.antt =====
-- tools/http_body_checks.py: the check of the two knobs before a run, and what it rules out.
use c64_https.Common.{
  ℕ, ◌≡◌, ◌≢◌, refl, ◌↔◌, inl, inr, Bool, true, Option, none, some, List, [], ◌∷◌, ltb, raised,
  Fault, Bool-cases, arith,
}
use c64_https.BodyChecks.Seconds.{Seconds, ms, below, is_finite, less}
use c64_https.BodyChecks.{BodyState}
use c64_https.BodyChecks.Stops.{
  StallTracker, Read, tls_read, should_stop_early, handshake_failed, early_stop_step, observe,
  frozen_for, when_frozen, stall_config_error,
}
use c64_https.BodyChecks.Stops.Laws.{IsThreshold}

-- The configuration check gives no message exactly on two finite times, the threshold at or above its
-- floor and the grace below it.
pub stall_config_error_iff :
    (stall_abort stall_grace : Seconds)
    → (stall_config_error stall_abort stall_grace ≡ none) ↔ (
        IsThreshold stall_abort
        × (is_finite stall_grace ≡ true)
        × (less stall_grace stall_abort ≡ true))
unfolding stall_config_error
stall_config_error_iff (ms a) (ms g) =
    (λ h. ((ground arith, ground arith), refl, ground arith), λ h. ground arith)
stall_config_error_iff (ms a) (below g) =
    (λ h. ((ground arith, ground arith), refl, ground arith), λ h. ground arith)
stall_config_error_iff (below a) (ms g) = (λ h. absurd (ground arith), λ h. ground arith)
stall_config_error_iff (below a) (below g) = (λ h. absurd (ground arith), λ h. ground arith)
stall_config_error_iff a g = (λ h. absurd (ground arith), λ h. absurd (ground arith))

frozen_step_returns :
    (t : StallTracker) (st : BodyState) (now : ℕ) (tcp : Option ℕ) (stall_abort : Seconds)
    (shadow_ok : Bool) (made : List Read) (e : Fault)
    → IsThreshold stall_abort
    → (when_frozen t st now tcp stall_abort shadow_ok made).outcome ≢ raised e
unfolding should_stop_early
frozen_step_returns t st now tcp stall_abort shadow_ok made e (f, g) h =
    elim (Bool-cases (less (frozen_for t now) stall_abort)) [
      | inl _ ↦ ground arith
      | inr _ ↦ ground arith
    ]

-- With knobs that the configuration check accepts, a poll never raises.
pub step_never_raises :
    (t : StallTracker) (st : BodyState) (now : ℕ) (tcp : Option ℕ)
    (stall_abort stall_grace : Seconds) (shadow_ok : Bool) (tls : Option (Option ℕ)) (e : Fault)
    → stall_config_error stall_abort stall_grace ≡ none
    → (early_stop_step t st now tcp stall_abort shadow_ok tls).outcome ≢ raised e
unfolding early_stop_step
step_never_raises t st now tcp stall_abort stall_grace shadow_ok none e c h =
    frozen_step_returns (observe t st.body_total now) st now tcp stall_abort shadow_ok [] e
      ((stall_config_error_iff stall_abort stall_grace).0 c).0 h
step_never_raises t st now tcp stall_abort stall_grace shadow_ok (some tls) e c h =
    let fine = ((stall_config_error_iff stall_abort stall_grace).0 c).0 in
    let t' = observe t st.body_total now in
    elim (Bool-cases (ltb st.parse_state 2)) [
      | inr b ↦ frozen_step_returns t' st now tcp stall_abort shadow_ok [] e fine (ground arith)
      | inl b ↦ elim (Bool-cases (handshake_failed st tls shadow_ok)) [
        | inl d ↦ ground arith
        | inr d ↦
            frozen_step_returns t' st now tcp stall_abort shadow_ok (tls_read ∷ []) e fine
              (ground arith)
      ]
    ]
