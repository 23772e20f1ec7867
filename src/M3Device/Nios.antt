-- ===== src/M3Device/Nios.antt =====
-- tools/check_m3_client.py: `_execute` of `M3Device`, a function for each of its commands.
use c64_https.Common.{
  ℕ, ◌+◌, ◌-◌, ◌*◌, ◌/◌, ◌%◌, Bool, false, not, ◌||◌, Option, none, some, List, [], ◌∷◌, ◌++◌, ltb,
  leb, ◌==◌, if◌then◌else◌, length, take, drop, replicate, list_eq, filter, Result, ok, ◌>>=◌, ◌>>◌,
  guard, value_error, index_error,
}
use c64_https.Common.Bytes.{index}
use c64_https.M3Device.{
  Event, data_event, idle_event, end_event, Session, OpenResult, refuse, refusedata, oklong,
  okshort, okversion, okempty, open_ok, Delay, info_size, release_size, Device, fast,
}
use c64_https.M3Device.Replies.{
  ok_status, idle_status, not_ours, close_unowned, unknown_command, invalid_params, out_of_range,
  send_error, Executed, answer, to_bytes, session_of, is_present, put_session, del_session,
  new_session, add_gone, discard, byte_is, claim, check_handle, slow_of, unless_never,
}

unfoldable pub execute_close : Device → List ℕ → Delay → Executed
execute_close dev cmd delay = do
  h ← index cmd 2
  (if is_present (session_of h dev.sessions)
      then answer (record dev { sessions = del_session h dev.sessions }) [] ok_status delay
      else answer dev [] close_unowned delay)

abbrev pub address_block : List ℕ
address_block = 10 ∷ 43 ∷ 23 ∷ 81 ∷ 255 ∷ 255 ∷ 255 ∷ 0 ∷ 10 ∷ 43 ∷ 23 ∷ 1 ∷ []

unfoldable pub execute_ipaddr : Device → List ℕ → Delay → Executed
execute_ipaddr dev cmd delay = do
  n ← index cmd 2
  if n == 0
      then answer dev (address_block ∷ []) ok_status delay
      else answer dev [] invalid_params delay

abbrev pub not_ready : Option ℕ → ℕ → Bool
not_ready none now = false
not_ready (some t) now = ltb now t

-- rec[4] = 0x03
unfoldable pub info_record : Device → ℕ → Result (List ℕ)
info_record dev now =
    if not_ready dev.ready_after now
    then guard (ltb 4 (length dev.info)) index_error
      >> ok (take 4 dev.info ++ (0x03 ∷ drop 5 dev.info))
    else ok dev.info

unfoldable pub execute_info : Device → List ℕ → ℕ → Delay → Executed
execute_info dev cmd now delay =
    if not dev.tls
    then answer dev [] unknown_command delay
    else if not (length cmd == 3)
    then answer (record dev { violations = dev.violations ++ (info_size (length cmd) ∷ []) }) []
        invalid_params delay
    else if byte_is cmd 2 0xFF
    then (do rec ← info_record dev now; answer dev (rec ∷ []) ok_status delay)
    else answer dev [] invalid_params delay

abbrev pub is_claimed : ℕ × Session → Bool
is_claimed e = e.1.claimed

-- The delay that is due, and those left.
abbrev pub next_release : Delay → List Delay → Delay × List Delay
next_release delay [] = (delay, [])
next_release delay (d ∷ ds) = (d, ds)

-- How many sessions are not claimed.
abbrev pub unclaimed : Device → ℕ
unclaimed dev = length (filter (λ e. not (is_claimed e)) dev.sessions)

unfoldable pub execute_release : Device → List ℕ → Delay → Executed
execute_release dev cmd delay =
    let d : Delay × List Delay = next_release delay dev.release_delays in
    if not dev.tls
    then answer dev [] unknown_command delay
    else if not (length cmd == 2)
    then answer (record dev { violations = dev.violations ++ (release_size (length cmd) ∷ []) }) []
        invalid_params delay
    else (do
      block ← to_bytes (unclaimed dev ∷ [])
      answer (record dev { sessions = filter is_claimed dev.sessions; release_delays = d.1 })
          (block ∷ []) ok_status d.0)

-- The device with a fresh session at `next_handle`.
abbrev pub opened : Device → Device
opened dev = record dev { sessions = put_session dev.next_handle new_session dev.sessions }

abbrev pub handle_block : ℕ → List ℕ
handle_block h = h ∷ 4 ∷ 3 ∷ 1 ∷ 0x13 ∷ 0x1D ∷ 0 ∷ 0 ∷ []

-- The first bytes of the reply, with a version.
abbrev pub version_block : ℕ → ℕ → List ℕ
version_block h n = h ∷ n % 256 ∷ n / 256 ∷ 1 ∷ 0x13 ∷ 0x1D ∷ 0 ∷ 0 ∷ []

unfoldable pub execute_open : Device → OpenResult → Delay → Executed
execute_open dev (refuse status) d = answer dev [] status d
execute_open dev (oklong n) d = do
  block ← to_bytes (handle_block dev.next_handle)
  guard (leb 8 n) value_error
  answer (opened dev) ((block ++ replicate (n - 8) 0) ∷ []) ok_status d
execute_open dev (refusedata status) d = do
  block ← to_bytes (handle_block dev.next_handle)
  answer (opened dev) (block ∷ []) status d
execute_open dev (okshort n) d = do
  block ← to_bytes (handle_block dev.next_handle)
  answer (opened dev) (take n block ∷ []) ok_status d
execute_open dev (okversion n) d = do
  block ← to_bytes (version_block dev.next_handle n)
  answer (opened dev) (block ∷ []) ok_status d
execute_open dev okempty d = answer (opened dev) [] ok_status d
execute_open dev (open_ok h) d = do
  block ← to_bytes (handle_block h)
  answer
      (record dev {
        sessions = put_session h (record new_session { on_write = dev.on_write }) dev.sessions;
        gone = discard h dev.gone;
      })
      (block ∷ []) ok_status d

-- status[:2] in (b"01", b"05")
abbrev pub untracks : List ℕ → Bool
untracks status =
    list_eq (take 2 status) (b'0' ∷ b'1' ∷ []) || list_eq (take 2 status) (b'0' ∷ b'5' ∷ [])

-- bytes([n & 0xFF, n >> 8]), for a length below 65536
abbrev pub length_bytes : ℕ → List ℕ
length_bytes n = n % 256 ∷ n / 256 ∷ []

-- Put the session's events back behind the first; an empty rest of its data is dropped.
abbrev pub with_rest : List ℕ → List Event → List Event
with_rest [] rx = rx
with_rest (b ∷ bs) rx = data_event (b ∷ bs) ∷ rx

abbrev pub with_rx : Device → ℕ → Session → List Event → Device
with_rx dev h s rx = record dev { sessions = put_session h (record s { rx = rx }) dev.sessions }

unfoldable pub read_event : Device → ℕ → Session → ℕ → Delay → List Event → Executed
read_event dev h s maxlen d [] = answer dev ((0xff ∷ 0xff ∷ []) ∷ []) idle_status d
read_event dev h s maxlen d (data_event payload ∷ rx) =
    answer (with_rx dev h s (with_rest (drop maxlen payload) rx))
      ((length_bytes (length (take maxlen payload)) ++ take maxlen payload) ∷ []) ok_status d
read_event dev h s maxlen d (idle_event ∷ rx) =
    answer (with_rx dev h s rx) ((0xff ∷ 0xff ∷ []) ∷ []) idle_status d
read_event dev h s maxlen d (end_event status ∷ rx) =
    answer
      (if untracks status
        then record dev { sessions = del_session h dev.sessions; gone = add_gone h dev.gone }
        else dev)
      ((0 ∷ 0 ∷ []) ∷ []) status d

abbrev pub read_session : Device → ℕ → Session → ℕ → Delay → Executed
read_session dev h s maxlen d = elim dev.forced_blocks [
  | some forced ↦ answer (record dev { forced_blocks = none }) forced.0 forced.1 d
  | none ↦ read_event dev h s maxlen d s.rx
]

unfoldable pub execute_read : Device → List ℕ → Delay → Executed
execute_read dev cmd d = do
  h ← index cmd 2
  lo ← index cmd 3
  hi ← index cmd 4
  let maxlen = lo + 256 * hi
  (if maxlen == 0 || ltb 1472 maxlen
      then answer dev [] out_of_range d
      else elim (session_of h dev.sessions) [
        | none ↦
            answer (record dev { gone = add_gone h dev.gone }) ((0xff ∷ 0xff ∷ []) ∷ []) not_ours d
        | some s ↦ read_session dev h s maxlen d
      ])

-- self.sessions[h]["rx"].extend(self.sessions[h].pop("on_write"))
abbrev pub answered : Session → Session
answered s = elim s.on_write [
  | none ↦ s
  | some events ↦ record s { rx = s.rx ++ events; on_write = none }
]

abbrev pub write_session : Device → ℕ → Session → List ℕ → Delay → Executed
write_session dev h s payload delay = elim dev.write_result [
  | some given ↦ answer dev (given.0 ∷ []) given.1 delay
  | none ↦
      answer
        (record dev {
          writes = dev.writes ++ ((h, payload) ∷ []);
          sessions = put_session h (answered s) dev.sessions;
        })
        (length_bytes (length payload) ∷ []) ok_status delay
]

unfoldable pub execute_write : Device → List ℕ → Delay → Executed
execute_write dev cmd delay = do
  h ← index cmd 2
  elim (session_of h dev.sessions) [
    | none ↦ answer dev ((0xff ∷ 0xff ∷ []) ∷ []) send_error delay
    | some s ↦ write_session dev h s (drop 3 cmd) delay
  ]

-- The branches, by the second byte of the command.
unfoldable pub execute_op : Device → List ℕ → ℕ → ℕ → Delay → Executed
execute_op dev cmd op now delay =
    if op == 0x09
    then execute_close (check_handle dev cmd) cmd delay
    else if op == 0x05
    then execute_ipaddr dev cmd delay
    else if op == 0x23
    then execute_info dev cmd now delay
    else if op == 0x25
    then execute_release dev cmd delay
    else if op == 0x21
    then (if not dev.tls
        then answer dev [] unknown_command delay
        else execute_open (record dev { last_open = some cmd }) dev.open_result
            (unless_never op dev dev.open_delay))
    else if op == 0x10
    then execute_read (check_handle dev cmd) cmd (unless_never op dev dev.read_delay)
    else if op == 0x11
    then execute_write (check_handle dev cmd) cmd delay
    else answer dev [] unknown_command delay

unfoldable pub execute : Device → List ℕ → ℕ → Executed
execute dev (b0 ∷ op ∷ rest) now =
    if b0 == 0x03
    then execute_op (claim dev (b0 ∷ op ∷ rest)) (b0 ∷ op ∷ rest) op now
        (unless_never op dev (slow_of op dev.slow))
    else answer dev [] invalid_params fast
execute dev _ now = answer dev [] invalid_params fast
