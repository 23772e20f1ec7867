-- ===== src/BodyChecks/Stops/Tracker.antt =====
-- tools/http_body_checks.py: what the tracker of a poll loop remembers, and which reads a poll makes.
use c64_https.Common.{
  ℕ, ◌≤◌, ◌≡◌, ◌≢◌, refl, ap, ◌∙◌, ◌⊎◌, inl, inr, Bool, true, false, Option, none, some, List, [],
  ◌∷◌, ◌++◌, ok, Bool-cases, arith,
}
use c64_https.BodyChecks.Seconds.{Seconds, less, elapsed}
use c64_https.BodyChecks.{BodyState}
use c64_https.BodyChecks.Stops.Laws.{reads-some}
use c64_https.BodyChecks.Stops.{moving, StallTracker, reads, early_stop_step, observe, frozen_for}

-- A poll of the counter: its value, and the time of the poll.
pub record Sample : Type 0 where
  pub total : ℕ
  pub now : ℕ

-- The tracker after a run of polls.
unfoldable pub observed : StallTracker → List Sample → StallTracker
observed t [] = t
observed t (x ∷ xs) = observed (observe t x.total x.now) xs

-- Every sample shows the one value.
abbrev pub AllShow : ℕ → List Sample → Type 0
AllShow n [] = Unit {0}
AllShow n (x ∷ xs) = (x.total ≡ n) × AllShow n xs

observe-same :
    (t : StallTracker) {n : ℕ} (x : Sample)
    → t.last_total ≡ some n
    → x.total ≡ n
    → observe t x.total x.now ≡ t
unfolding observe
observe-same t x h e = rw (h, e) (ground arith)

observe-other :
    (t : StallTracker) (x : Sample)
    → t.last_total ≢ some x.total
    → observe t x.total x.now ≡ record t { last_total = some x.total; last_moved = x.now }
unfolding observe
observe-other t x h = elim (Bool-cases (reads t.last_total x.total)) [
  | inl e ↦ absurd (h (reads-some t.last_total x.total e))
  | inr e ↦ rw (e) refl
]

observed-still :
    (t : StallTracker) (n : ℕ) (xs : List Sample)
    → t.last_total ≡ some n
    → AllShow n xs
    → observed t xs ≡ t
unfolding observed
observed-still t n [] h a = refl
observed-still t n (x ∷ xs) h a =
    ap (λ u. observed u xs) (observe-same t x h a.0) ∙ observed-still t n xs h a.1

observed-++ :
    (t : StallTracker) (xs ys : List Sample) → observed t (xs ++ ys) ≡ observed (observed t xs) ys
unfolding observed
observed-++ t [] ys = refl
observed-++ t (x ∷ xs) ys = observed-++ (observe t x.total x.now) xs ys

-- After any run of polls, a sample that shows a value other than the last one seen, and any number
-- of polls that show the same, the frozen time is counted from that sample: neither from the start
-- of the loop nor from the last poll.
pub frozen_for-observed :
    (t : StallTracker) (before : List Sample) (x : Sample) (after : List Sample) (now : ℕ)
    → (observed t before).last_total ≢ some x.total
    → AllShow x.total after
    → frozen_for (observed t (before ++ (x ∷ after))) now ≡ elapsed now x.now
unfolding observed frozen_for
frozen_for-observed t before x after now h a =
    let u = observed t before in
    let v = record u { last_total = some x.total; last_moved = x.now } in
    ap (λ w. frozen_for w now)
      (observed-++ t before (x ∷ after)
        ∙ ap (λ w. observed w after) (observe-other u x h)
        ∙ observed-still v x.total after refl a)

-- While the counter moved less than the threshold ago, a poll that has no reader of the TLS state,
-- or that comes after the headers, makes no read at all and does not stop, and the tracker it
-- leaves has seen the counter.
pub moving_reads_nothing :
    (t : StallTracker) (st : BodyState) (now : ℕ) (tcp : Option ℕ) (stall_abort : Seconds)
    (shadow_ok : Bool) (tls : Option (Option ℕ))
    → (tls ≡ none) ⊎ (2 ≤ st.parse_state)
    → less (frozen_for (observe t st.body_total now) now) stall_abort ≡ true
    → early_stop_step t st now tcp stall_abort shadow_ok tls
      ≡ record { tracker = observe t st.body_total now; made = []; outcome = ok (false, moving) }
unfolding early_stop_step
moving_reads_nothing t st now tcp stall_abort shadow_ok none g h = ground arith
moving_reads_nothing t st now tcp stall_abort shadow_ok (some tls) (inl e) h = absurd cc
moving_reads_nothing t st now tcp stall_abort shadow_ok (some tls) (inr g) h = ground arith
