-- ===== src/BodyChecks/Stops/Laws.antt =====
-- tools/http_body_checks.py: what stopping a poll loop early says of the verdicts, and what a poll costs.
use c64_https.Common.{
  ℕ, ◌≤◌, ◌<◌, ◌≡◌, ◌≢◌, ◌↔◌, ◌⊎◌, inl, inr, Bool, true, false, Option, none, some, List, [], ◌∷◌,
  ltb, ok, raised, Bool-cases, value_error, arith,
}
use c64_https.BodyChecks.Verdicts.{Verdict, Status, pass, fail, has_failed}
use c64_https.BodyChecks.Seconds.{Seconds, is_finite, less}
use c64_https.BodyChecks.{BodyState, check_body_complete, check_http_status}
use c64_https.BodyChecks.Complete.{no_body_fails}
use c64_https.BodyChecks.Exit.{decide_exit, exit_pass}
use c64_https.BodyChecks.Exit.Laws.{decide_exit_pass_iff}
use c64_https.BodyChecks.Stops.{
  Why, StallTracker, Read, tls_read, reads, should_stop_early, handshake_failed, early_stop_step,
  observe, frozen_for, stall_abort_min, when_frozen, frozen_error, frozen_closed,
}

-- What holds where the loop may stop.
abbrev pub MayStop : BodyState → Option ℕ → Seconds → Seconds → Bool → Type 0
MayStop st tcp frozen stall_abort shadow_ok =
    (shadow_ok ≡ true)
    × (2 ≤ st.parse_state)
    × ((check_body_complete st).status ≡ fail)
    × ((tcp ≡ some 0) ⊎ (tcp ≡ some 2))
    × (less frozen stall_abort ≡ false)

has_failed_fail : (v : Verdict) → has_failed v ≡ true → v.status ≡ fail
has_failed_fail v h = ground arith

pub reads-some : (o : Option ℕ) (n : ℕ) → reads o n ≡ true → o ≡ some n
reads-some none n h = cc
reads-some (some v) n h = ground arith

stop_branch :
    (st : BodyState) (tcp : Option ℕ) (frozen stall_abort : Seconds) (shadow_ok : Bool) (why : Why)
    → should_stop_early st tcp frozen stall_abort shadow_ok ≡ ok (true, why)
    → MayStop st tcp frozen stall_abort shadow_ok
unfolding should_stop_early
stop_branch st tcp frozen stall_abort shadow_ok why h =
    elim (Bool-cases (less frozen stall_abort)) [
      | inl e ↦ absurd (ground arith)
      | inr e ↦ elim (Bool-cases (has_failed (check_body_complete st))) [
        | inl f ↦ elim (Bool-cases (reads tcp 2)) [
          | inl g ↦ (
            ground arith,
            ground arith,
            has_failed_fail (check_body_complete st) f,
            inr (reads-some tcp 2 g),
            e,
          )
          | inr g ↦ elim (Bool-cases (reads tcp 0)) [
            | inl g' ↦ (
              ground arith,
              ground arith,
              has_failed_fail (check_body_complete st) f,
              inl (reads-some tcp 0 g'),
              e,
            )
            | inr g' ↦ absurd (ground arith)
          ]
        ]
        | inr f ↦ absurd (ground arith)
      ]
    ]

-- The threshold is one that `should_stop_early` does not refuse.
abbrev pub IsThreshold : Seconds → Type 0
IsThreshold s = (is_finite s ≡ true) × (less s stall_abort_min ≡ false)

may_stop :
    (st : BodyState) (tcp : Option ℕ) (frozen stall_abort : Seconds) (shadow_ok : Bool)
    → IsThreshold stall_abort
    → MayStop st tcp frozen stall_abort shadow_ok
    → (why : Why) × (should_stop_early st tcp frozen stall_abort shadow_ok ≡ ok (true, why))
unfolding should_stop_early
may_stop st (some t) frozen stall_abort shadow_ok h (s, p, f, inl e, z) =
    (frozen_closed, ground arith)
may_stop st (some t) frozen stall_abort shadow_ok h (s, p, f, inr e, z) =
    (frozen_error, ground arith)
may_stop st none frozen stall_abort shadow_ok h (s, p, f, e, z) = absurd (ground arith)

threshold_returns :
    (st : BodyState) (tcp : Option ℕ) (frozen stall_abort : Seconds) (shadow_ok : Bool)
    → IsThreshold stall_abort
    → should_stop_early st tcp frozen stall_abort shadow_ok ≢ raised value_error
unfolding should_stop_early
threshold_returns st tcp frozen stall_abort shadow_ok (f, g) h = ground arith

stop-IsThreshold :
    (st : BodyState) (tcp : Option ℕ) (frozen stall_abort : Seconds) (shadow_ok : Bool)
    (r : Bool × Why)
    → should_stop_early st tcp frozen stall_abort shadow_ok ≡ ok r
    → IsThreshold stall_abort
unfolding should_stop_early
stop-IsThreshold st tcp frozen stall_abort shadow_ok r h = (ground arith, ground arith)

refused_threshold :
    (st : BodyState) (tcp : Option ℕ) (frozen stall_abort : Seconds) (shadow_ok : Bool)
    → (¬ IsThreshold stall_abort)
    → should_stop_early st tcp frozen stall_abort shadow_ok ≡ raised value_error
unfolding should_stop_early
refused_threshold st tcp frozen stall_abort shadow_ok n =
    elim (Bool-cases (is_finite stall_abort)) [
      | inl e ↦ elim (Bool-cases (less stall_abort stall_abort_min)) [
        | inl f ↦ ground arith
        | inr f ↦ absurd (n (e, f))
      ]
      | inr e ↦ ground arith
    ]

-- `should_stop_early` raises ValueError exactly under a threshold that is not finite or is below the
-- floor, and lets the loop stop exactly where the threshold is neither, the shadow RAM was read, the
-- body was reached and fails its check, the socket is in ERROR or CLOSED, and the counter has not been
-- frozen for less than the threshold.
pub should_stop_early_iff :
    (st : BodyState) (tcp : Option ℕ) (frozen stall_abort : Seconds) (shadow_ok : Bool)
    → ((should_stop_early st tcp frozen stall_abort shadow_ok ≡ raised value_error)
        ↔ (¬ IsThreshold stall_abort))
      × (((why : Why) × (should_stop_early st tcp frozen stall_abort shadow_ok ≡ ok (true, why)))
          ↔ (IsThreshold stall_abort × MayStop st tcp frozen stall_abort shadow_ok))
unfolding should_stop_early
should_stop_early_iff st tcp frozen stall_abort shadow_ok = (
  (
    (λ h t. threshold_returns st tcp frozen stall_abort shadow_ok t h),
    refused_threshold st tcp frozen stall_abort shadow_ok,
  ),
  (
    (λ h. (
      stop-IsThreshold st tcp frozen stall_abort shadow_ok (true, h.0) h.1,
      stop_branch st tcp frozen stall_abort shadow_ok h.0 h.1,
    )),
    λ m. may_stop st tcp frozen stall_abort shadow_ok m.0 m.1,
  ),
)

dead_state :
    (st : BodyState) (tls : Option ℕ) (shadow_ok : Bool)
    → handshake_failed st tls shadow_ok ≡ true
    → (shadow_ok ≡ true) × (tls ≡ some 0xFF) × (st.parse_state < 2)
unfolding handshake_failed
dead_state st tls shadow_ok h = elim (Bool-cases (reads tls 0xFF)) [
  | inl e ↦ (ground arith, reads-some tls 0xFF e, ground arith)
  | inr e ↦ absurd (ground arith)
]

frozen_step :
    (t : StallTracker) (st : BodyState) (now : ℕ) (tcp : Option ℕ) (stall_abort : Seconds)
    (shadow_ok : Bool) (made : List Read) (why : Why)
    → (when_frozen t st now tcp stall_abort shadow_ok made).outcome ≡ ok (true, why)
    → (shadow_ok ≡ true) × ((check_body_complete st).status ≡ fail)
frozen_step t st now tcp stall_abort shadow_ok made why h =
    elim (Bool-cases (less (frozen_for t now) stall_abort)) [
      | inl e ↦ absurd (ground arith)
      | inr e ↦
          let m = stop_branch st tcp (frozen_for t now) stall_abort shadow_ok why (ground arith) in
          (m.0, m.2)
    ]

-- Whatever made the poll stop, the body fails its check.
step_fails :
    (t : StallTracker) (st : BodyState) (now : ℕ) (tcp : Option ℕ) (stall_abort : Seconds)
    (shadow_ok : Bool) (tls : Option (Option ℕ)) (why : Why)
    → (early_stop_step t st now tcp stall_abort shadow_ok tls).outcome ≡ ok (true, why)
    → (shadow_ok ≡ true) × ((check_body_complete st).status ≡ fail)
unfolding early_stop_step
step_fails t st now tcp stall_abort shadow_ok none why h =
    frozen_step (observe t st.body_total now) st now tcp stall_abort shadow_ok [] why h
step_fails t st now tcp stall_abort shadow_ok (some tls) why h =
    elim (Bool-cases (ltb st.parse_state 2)) [
      | inr e ↦
          frozen_step (observe t st.body_total now) st now tcp stall_abort shadow_ok [] why
            (ground arith)
      | inl e ↦ elim (Bool-cases (handshake_failed st tls shadow_ok)) [
        | inl d ↦ (
          (dead_state st tls shadow_ok d).0,
          (no_body_fails st 0 (dead_state st tls shadow_ok d).2).1,
        )
        | inr d ↦
            frozen_step (observe t st.body_total now) st now tcp stall_abort shadow_ok
              (tls_read ∷ []) why (ground arith)
      ]
    ]

fail-pass : (s : Status) → s ≡ fail → s ≡ pass → ⊥
fail-pass s h e = cc

-- A loop that stops early stops on a run that does not pass: with the checks of the status and of the
-- body made on the state it stopped on, the exit code is not that of a pass, whatever else was found.
pub stopped_never_passes :
    (t : StallTracker) (st : BodyState) (now : ℕ) (tcp : Option ℕ) (stall_abort : Seconds)
    (shadow_ok : Bool) (tls : Option (Option ℕ)) (why : Why) (banner_ok : Bool)
    (shadow settled : Option Verdict) (expect : ℕ) (kex require_kex : Option ℕ)
    → (early_stop_step t st now tcp stall_abort shadow_ok tls).outcome ≡ ok (true, why)
    → decide_exit banner_ok shadow settled
        (some (check_http_status st expect))
        (some (check_body_complete st))
        kex
        require_kex
      ≢ exit_pass
stopped_never_passes t st now tcp stall_abort shadow_ok tls why b v w expect k r h e =
    fail-pass ((check_body_complete st).status)
      ((step_fails t st now tcp stall_abort shadow_ok tls why h).1)
      ((decide_exit_pass_iff b v w (some (check_http_status st expect))
          (some (check_body_complete st)) k r).0
        e).4
