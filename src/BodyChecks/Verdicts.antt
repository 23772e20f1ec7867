-- ===== src/BodyChecks/Verdicts.antt =====
-- tools/ip65_hw_checks.py: `Verdict`, which has three states. The evidence of a verdict is not
-- modelled, and its reason is the branch that gave it, with the figures that the text reports.
use c64_https.Common.{
  ℕ, Bool, true, false, Option, none, some, Result, ok, ◌>>◌, guard, value_error, not, ◌||◌,
}

pub data Status : Type 0 where
  pass fail inconclusive : Status

-- The branches of the checks on a capture.
pub data WireReason : Type 0 where
  -- check_c64_originated
  same_macs unexpected_macs few_on_port port_seen few_frames station_seen : WireReason
  -- check_mac_on_wire
  mac_unread mac_width mac_zero mac_group mac_default mac_of_host few_with_mac mac_seen : WireReason
  -- check_capture_grew
  not_sampled shrank not_grown grown : WireReason
  -- check_capture_bracket
  inverted_window empty_capture none_inside few_inside bracketed : WireReason
  -- check_dns_query_on_wire
  queried not_queried : WireReason
  -- check_client_hello_on_wire
  no_payload no_records not_handshake not_hello other_sni hello_sent : WireReason
  -- check_tls_traffic_both_ways
  none_from_client none_from_host both_ways : WireReason
  -- check_body_not_on_wire
  no_secret no_control no_frames in_clear partly_in_clear control_missing not_in_clear : WireReason

-- The branches of the checks on the machine's memory.
pub data MachineReason : Type 0 where
  -- check_dhcp_lease
  ip_unread ip_width ip_zero ip_default ip_loopback ip_reserved ip_link_local ip_of_host :
      MachineReason
  ip_off_subnet ip_not_pinned leased : MachineReason
  -- check_ip65_config_written
  fields_unread fields_default fields_zero fields_wrong fields_written : MachineReason
  -- check_shadow_ram_readable
  shadow_unread shadow_short shadow_rom shadow_ram : MachineReason
  -- check_tls_connected
  latch_unread latch_odd latch_connected latch_contradicted latch_error latch_clear : MachineReason
  -- check_http_response
  no_expected response_unread other_status other_length other_body exact_body : MachineReason
  -- check_net_last_error
  error_unread no_error known_error unknown_error : MachineReason
  -- check_net_counters
  counters_unread never_sent other_sends overflowed counted : MachineReason
  -- check_image_readback
  image_unread image_length image_differs image_same : MachineReason
  -- resolve_symbols
  no_symbols symbols_missing symbols_found : MachineReason

pub data Reason : Type 0 where
  -- check_body_complete
  refused : Reason
  no_body : Reason
  complete : Reason
  truncated : ℕ → Reason
  over_read : Reason
  terminal_chunk : Reason
  chunk_missing : Reason
  unframed : Reason
  -- check_http_status
  http_status : Reason
  -- check_fetch_settled
  still_growing : Reason
  settled : Reason
  -- check_kex_group
  kex_unread : Reason
  kex_other : Reason
  kex_matches : Reason
  -- tools/ip65_hw_checks.py
  on_wire : WireReason → Reason
  on_machine : MachineReason → Reason

pub record Verdict : Type 0 where
  pub passed : Bool
  pub reason : Reason
  pub status : Status

abbrev is_pass : Status → Bool
is_pass pass = true
is_pass _ = false

abbrev filled : Bool → Option Status → Status
filled okay (some s) = s
filled true none = pass
filled false none = fail

-- Verdict(ok, reason, status=…), with __post_init__
unfoldable pub make_verdict : Bool → Reason → Option Status → Result Verdict
make_verdict okay reason given = do
  let status = filled okay given
  guard (not okay || is_pass status) value_error
  guard (okay || not (is_pass status)) value_error
  ok (record { passed = okay; reason = reason; status = status })

-- What the three ways of writing a verdict in the checkers construct.
abbrev pub passing : Reason → Verdict
passing r = record { passed = true; reason = r; status = pass }

abbrev pub failing : Reason → Verdict
failing r = record { passed = false; reason = r; status = fail }

abbrev pub unsure : Reason → Verdict
unsure r = record { passed = false; reason = r; status = inconclusive }

abbrev pub has_failed : Verdict → Bool
has_failed v = elim v.status [ fail ↦ true | _ ↦ false ]

-- The property `inconclusive`
abbrev pub is_inconclusive : Verdict → Bool
is_inconclusive v = elim v.status [ inconclusive ↦ true | _ ↦ false ]
