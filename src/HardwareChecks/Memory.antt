-- ===== src/HardwareChecks/Memory.antt =====
-- tools/ip65_hw_checks.py: the checks on the machine's memory after a fetch, from
-- `check_shadow_ram_readable` to `resolve_symbols`.
use c64_https.Common.{
  ℕ, Bool, true, false, not, ◌||◌, Option, none, some, List, [], ◌∷◌, ltb, ◌==◌, if◌then◌else◌,
  length, take, list_eq, any, is_nil,
}
use c64_https.BodyChecks.Verdicts.{
  Verdict, on_machine, unsure, shadow_unread, shadow_short, shadow_rom, shadow_ram, latch_unread,
  latch_odd, latch_connected, latch_contradicted, latch_error, latch_clear, no_expected,
  response_unread, other_status, other_length, other_body, exact_body, error_unread, no_error,
  known_error, unknown_error, counters_unread, never_sent, other_sends, overflowed, counted,
  image_unread, image_length, image_differs, image_same, no_symbols, symbols_missing, symbols_found,
}
use c64_https.HardwareChecks.Machine.{pass_at, fail_at}
use c64_https.HardwareChecks.Leak.{is_in, starts_with}

abbrev pub basic_rom_a000_prefix : List ℕ
basic_rom_a000_prefix = 0x94 ∷ 0xe3 ∷ 0x7b ∷ 0xe3 ∷ []

-- b"CBMBASIC"
abbrev pub basic_rom_signature : List ℕ
basic_rom_signature = b'C' ∷ b'B' ∷ b'M' ∷ b'B' ∷ b'A' ∷ b'S' ∷ b'I' ∷ b'C' ∷ []

unfoldable pub check_shadow_ram_readable : Option (List ℕ) → Verdict
check_shadow_ram_readable none = fail_at shadow_unread
check_shadow_ram_readable (some read) =
    if ltb (length read) 12
    then fail_at shadow_short
    else if starts_with basic_rom_a000_prefix read || is_in basic_rom_signature (take 16 read)
    then fail_at shadow_rom
    else pass_at shadow_ram

abbrev pub tls_state_connected : ℕ
tls_state_connected = 7

abbrev pub tls_state_error : ℕ
tls_state_error = 0xFF

abbrev pub is_state : ℕ → Option ℕ → Bool
is_state want none = false
is_state want (some s) = s == want

-- `tls_last_state` is only reported.
unfoldable pub check_tls_connected : Option ℕ → Option ℕ → Verdict
check_tls_connected tls_state_max none = fail_at latch_unread
check_tls_connected tls_state_max (some reached) =
    if not (reached == 0 || reached == tls_state_connected)
    then unsure (on_machine latch_odd)
    else if reached == tls_state_connected
    then pass_at latch_connected
    else if is_state tls_state_connected tls_state_max
    then unsure (on_machine latch_contradicted)
    else if is_state tls_state_error tls_state_max
    then fail_at latch_error
    else fail_at latch_clear

unfoldable pub check_http_response : Option ℕ → Option ℕ → Option (List ℕ) → List ℕ → Verdict
check_http_response (some status) (some resp_len) (some resp_buf) expected =
    if is_nil expected
    then fail_at no_expected
    else if not (status == 200)
    then fail_at other_status
    else if not (resp_len == length expected)
    then fail_at other_length
    else if not (list_eq (take resp_len resp_buf) expected)
    then fail_at other_body
    else pass_at exact_body
check_http_response _ _ _ expected =
    if is_nil expected then fail_at no_expected else fail_at response_unread

-- The table has a name for each code.
unfoldable pub check_net_last_error : Option ℕ → List (ℕ × List ℕ) → Verdict
check_net_last_error none table = fail_at error_unread
check_net_last_error (some value) table =
    if value == 0
    then pass_at no_error
    else if any (λ entry. entry.0 == value) table
    then fail_at known_error
    else fail_at unknown_error

abbrev pub differs : ℕ → Option ℕ → Bool
differs value none = false
differs value (some want) = not (value == want)

unfoldable pub check_net_counters : Option ℕ → Option ℕ → Option ℕ → Verdict
check_net_counters (some send_calls) (some recv_overflow) expect_sends =
    if send_calls == 0
    then fail_at never_sent
    else if differs send_calls expect_sends
    then fail_at other_sends
    else if not (recv_overflow == 0)
    then fail_at overflowed
    else pass_at counted
check_net_counters _ _ expect_sends = fail_at counters_unread

unfoldable pub check_image_readback : List ℕ → Option (List ℕ) → Verdict
check_image_readback expected none = fail_at image_unread
check_image_readback expected (some readback) =
    if not (length readback == length expected)
    then fail_at image_length
    else if not (list_eq readback expected)
    then fail_at image_differs
    else pass_at image_same

abbrev pub is_missing : Option ℕ → Bool
is_missing none = true
is_missing (some addr) = false

-- `labels` looks a name up; one that is not a mapping has none.
unfoldable pub resolve_symbols {ℓ} : {Name : Type ℓ} → (Name → Option ℕ) → List Name → Verdict
resolve_symbols labels names =
    if is_nil names
    then fail_at no_symbols
    else if any (λ n. is_missing (labels n)) names
    then fail_at symbols_missing
    else pass_at symbols_found
