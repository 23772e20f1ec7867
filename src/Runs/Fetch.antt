-- ===== src/Runs/Fetch.antt =====
-- Runs of the checks on a fetch on concrete states.
use c64_https.Common.{◌^◌, ◌<◌, ◌≡◌, ◌≢◌, refl, ◌↔◌, true, none, some, [], ◌∷◌, arith}
use c64_https.BodyChecks.Verdicts.{passing, settled, http_status, shadow_ram, on_machine}
use c64_https.BodyChecks.Seconds.{ms}
use c64_https.BodyChecks.{
  BodyState, Symbol, http_content_length, http_sink_full, http_parse_state, http_status_code,
  http_cl_valid, http_body_total, http_chunked, http_chunk_state, RawReads, width,
  check_http_status, check_body_complete,
}
use c64_https.BodyChecks.Decoded.{field}
use c64_https.BodyChecks.Exit.{decide_exit, exit_pass}
use c64_https.BodyChecks.Exit.Laws.{Passed, Settled, KexMatches, decide_exit_pass_iff}
use c64_https.BodyChecks.Stops.{
  frozen_closed, StallTracker, should_stop_early, early_stop_step, observe, frozen_for,
}
use c64_https.BodyChecks.Stops.Laws.{stopped_never_passes}

-- A response of 1,000 bytes of which 600 were read.
abbrev cut_off : BodyState
cut_off = record {
  parse_state = 2;
  status = 200;
  cl_valid = 1;
  content_length = 1000;
  body_total = 600;
  chunked = 0;
  chunk_state = 0;
  sink_full = 0;
}

abbrev at_header : BodyState
at_header = record cut_off { parse_state = 0 }

abbrev tracker : StallTracker
tracker = record { started = 0; last_total = some 600; last_moved = 1000 }

decide_exit_pass_iff_example :
    (decide_exit true
        (some (passing (on_machine shadow_ram)))
        (some (passing settled))
        (some (passing http_status))
        (some (check_body_complete cut_off))
        (some 29)
        (some 29)
      ≡ exit_pass)
    ↔ ((true ≡ true)
        × Settled (some (passing settled))
        × Passed (some (passing (on_machine shadow_ram)))
        × Passed (some (passing http_status))
        × Passed (some (check_body_complete cut_off))
        × KexMatches (some 29) (some 29))
decide_exit_pass_iff_example =
    decide_exit_pass_iff true (some (passing (on_machine shadow_ram))) (some (passing settled))
      (some (passing http_status)) (some (check_body_complete cut_off)) (some 29) (some 29)

fits : (s : Symbol) → field cut_off s < 256 ^ width s
fits http_parse_state = omega arith
fits http_status_code = omega arith
fits http_cl_valid = omega arith
fits http_content_length = omega arith
fits http_body_total = omega arith
fits http_chunked = omega arith
fits http_chunk_state = omega arith
fits http_sink_full = omega arith

-- Two bytes for every symbol.
abbrev pairs : RawReads
pairs s = some (1 ∷ 2 ∷ [])

stopped_never_passes_example :
    decide_exit true
      (some (passing (on_machine shadow_ram)))
      (some (passing settled))
      (some (check_http_status cut_off 200))
      (some (check_body_complete cut_off))
      none
      none
    ≢ exit_pass
unfolding early_stop_step should_stop_early check_body_complete observe frozen_for
stopped_never_passes_example =
    stopped_never_passes tracker cut_off 131000 (some 0) (ms 120000) true none frozen_closed true
      (some (passing (on_machine shadow_ram))) (some (passing settled)) 200 none none refl
