-- ===== src/BodyChecks/Stops.antt =====
-- tools/http_body_checks.py: when the poll loop may stop before its budget. A reader of the machine is
-- what it would return, and `early_stop_step` says which readers it called.
pub mod Laws
pub mod Knobs
pub mod Tracker
pub mod Closing
use Prim.Native.String.{String}
use Prim.Native.String as Text
use c64_https.Common.{
  ℕ, Bool, true, false, not, ◌&&◌, ◌||◌, Option, none, some, List, [], ◌∷◌, ◌++◌, ltb, leb, ◌==◌,
  if◌then◌else◌, Result, ok, raised, ◌>>=◌, ◌>>◌, guard, value_error,
}
use c64_https.BodyChecks.Verdicts.{Verdict, has_failed}
use c64_https.BodyChecks.Seconds.{Seconds, ms, is_finite, less, at_least, elapsed}
use c64_https.BodyChecks.{BodyState, parse_state_body, check_body_complete}

abbrev pub stall_abort_min : Seconds
stall_abort_min = ms 60000

abbrev pub net_tcp_closed : ℕ
net_tcp_closed = 0

abbrev pub net_tcp_connected : ℕ
net_tcp_connected = 1

abbrev pub net_tcp_error : ℕ
net_tcp_error = 2

abbrev pub tls_state_error : ℕ
tls_state_error = 0xFF

-- What is said of a decision to stop, or not to.
pub data Why : Type 0 where
  shadow_unproven before_body not_failed socket_open moving : Why
  frozen_error frozen_closed : Why
  handshake_closed handshake_waiting : Why

-- value in (…), of a byte that may not have been readable
abbrev pub reads : Option ℕ → ℕ → Bool
reads none n = false
reads (some v) n = v == n

unfoldable pub should_stop_early :
    BodyState → Option ℕ → Seconds → Seconds → Bool → Result (Bool × Why)
should_stop_early st tcp_state frozen_for stall_abort shadow_ok = do
  guard (is_finite stall_abort && not (less stall_abort stall_abort_min)) value_error
  ok (
      if not shadow_ok
      then (false, shadow_unproven)
      else if ltb st.parse_state parse_state_body
      then (false, before_body)
      else if not (has_failed (check_body_complete st))
      then (false, not_failed)
      else if not (reads tcp_state net_tcp_error || reads tcp_state net_tcp_closed)
      then (false, socket_open)
      else if less frozen_for stall_abort
      then (false, moving)
      else (true, if reads tcp_state net_tcp_error then frozen_error else frozen_closed))

-- A description of the failure, or None.
unfoldable pub handshake_failed : BodyState → Option ℕ → Bool → Bool
handshake_failed st tls_state shadow_ok =
    if not shadow_ok
    then false
    else if not (reads tls_state tls_state_error)
    then false
    else if leb parse_state_body st.parse_state
    then false
    else true

-- StallTracker, whose times are readings of a clock in milliseconds
pub record StallTracker : Type 0 where
  pub started : ℕ
  pub last_total : Option ℕ
  pub last_moved : ℕ

unfoldable pub new_tracker : ℕ → StallTracker
new_tracker started = record { started = started; last_total = none; last_moved = started }

unfoldable pub observe : StallTracker → ℕ → ℕ → StallTracker
observe t total now =
    if not (reads t.last_total total)
    then record t { last_total = some total; last_moved = now }
    else t

unfoldable pub frozen_for : StallTracker → ℕ → Seconds
frozen_for t now = elapsed now t.last_moved

-- The reads of the machine that a poll makes.
pub data Read : Type 0 where
  tcp_read tls_read : Read

-- What a poll leaves: the tracker, the reads it made in their order, and what it returns or raises.
pub record Polled : Type 0 where
  pub tracker : StallTracker
  pub made : List Read
  pub outcome : Result (Bool × Why)

-- The step from `frozen = tracker.frozen_for(now)` on.
abbrev pub when_frozen :
    StallTracker → BodyState → ℕ → Option ℕ → Seconds → Bool → List Read → Polled
when_frozen t st now tcp stall_abort shadow_ok made =
    if less (frozen_for t now) stall_abort
    then record { tracker = t; made = made; outcome = ok (false, moving) }
    else record {
      tracker = t;
      made = made ++ (tcp_read ∷ []);
      outcome = should_stop_early st tcp (frozen_for t now) stall_abort shadow_ok;
    }

-- The step where the handshake has failed.
abbrev pub when_dead : StallTracker → Option ℕ → Polled
when_dead t tcp = record {
  tracker = t;
  made = tls_read ∷ tcp_read ∷ [];
  outcome =
      ok
        (if reads tcp net_tcp_closed then (true, handshake_closed) else (false, handshake_waiting));
}

-- `read_tls_state` is None, or a reader of the byte. The tracker has changed also where the call raises.
unfoldable pub early_stop_step :
    StallTracker → BodyState → ℕ → Option ℕ → Seconds → Bool → Option (Option ℕ) → Polled
early_stop_step tracker st now tcp stall_abort shadow_ok none =
    when_frozen (observe tracker st.body_total now) st now tcp stall_abort shadow_ok []
early_stop_step tracker st now tcp stall_abort shadow_ok (some tls_state) =
    let t = observe tracker st.body_total now in
    if not (ltb st.parse_state parse_state_body)
    then when_frozen t st now tcp stall_abort shadow_ok []
    else if handshake_failed st tls_state shadow_ok
    then when_dead t tcp
    else when_frozen t st now tcp stall_abort shadow_ok (tls_read ∷ [])

-- isinstance(v, str) and v
abbrev pub said : Option String → Bool
said none = false
said (some Text.[]) = false
said (some _) = true

abbrev pub closed_text : String
closed_text =
    "net_tcp_state=CLOSED (net_tcp_close has run, or the firmware closed the socket at the peer's EOF)"

unfoldable pub close_confirmed : Bool → Bool → Option ℕ → Option String → Option String
close_confirmed stopped_early shadow_ok tcp_state closed_before =
    if said closed_before
    then closed_before
    else if not stopped_early
    then none
    else if not shadow_ok
    then none
    else if reads tcp_state net_tcp_closed
    then some closed_text
    else none

pub data ConfigError : Type 0 where
  abort_not_finite grace_not_finite abort_below_floor grace_not_below_abort : ConfigError

unfoldable pub stall_config_error : Seconds → Seconds → Option ConfigError
stall_config_error stall_abort stall_grace =
    if not (is_finite stall_abort)
    then some abort_not_finite
    else if not (is_finite stall_grace)
    then some grace_not_finite
    else if less stall_abort stall_abort_min
    then some abort_below_floor
    else if at_least stall_grace stall_abort
    then some grace_not_below_abort
    else none
