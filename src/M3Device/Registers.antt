-- ===== src/M3Device/Registers.antt =====
-- tools/check_m3_client.py: the clock, the reads and the writes of `M3Device`. `now` is what the clock gives.
use c64_https.Common.{
  ℕ, ◌+◌, ◌-◌, ◌*◌, Bool, true, false, not, ◌&&◌, ◌||◌, Option, none, some, List, [], ◌∷◌, ◌++◌,
  ltb, leb, ◌==◌, if◌then◌else◌, length, get_or, map, Result, ok, ◌>>=◌,
}
use Prim.Native.Nat.{bit_and}
use c64_https.M3Device.{
  Handshake, st_idle, st_busy, st_last, st_more, code, has_reply, Due, at_unit, at_infinity, Delay,
  Blocks, Violation, wrote_in_abort, abort_with_push, unread_bytes, Device,
}
use c64_https.M3Device.Nios.{execute}
use c64_https.M3Device.Replies.{Reply}

-- The first of the blocks, where there is one, and those left.
abbrev pub loaded : Device → Blocks → Device
loaded dev [] = record dev { response = []; blocks = []; rp = 0; state = st_last }
loaded dev (b ∷ []) = record dev { response = b; blocks = []; rp = 0; state = st_last }
loaded dev (b ∷ c ∷ bs) = record dev { response = b; blocks = c ∷ bs; rp = 0; state = st_more }

unfoldable pub load_block : Device → Device
load_block dev = loaded dev dev.blocks

abbrev pub is_due : Option Due → ℕ → Bool
is_due none now = false
is_due (some (at_unit t)) now = leb t now
is_due (some at_infinity) now = false

-- The reply that is due is staged.
unfoldable pub stage : Device → Blocks × List ℕ → Device
stage dev reply = load_block (record dev {
  done_at = none;
  pending = none;
  new_command = false;
  blocks = reply.0;
  status = reply.1;
  sp = 0;
})

-- `pending` is None only while nothing is due.
abbrev pub staged_by : Device → Option (Blocks × List ℕ) → Device
staged_by dev none = dev
staged_by dev (some reply) = stage dev reply

abbrev pub staged : Device → ℕ → Device
staged dev now = if is_due dev.done_at now then staged_by dev dev.pending else dev

-- HANDSHAKE_RESET
abbrev pub reset : Device → ℕ → Device
reset dev now = record dev {
  abort_due = none;
  abort_pending = false;
  state = st_idle;
  new_command = false;
  blocks = [];
  response = [];
  status = [];
  rp = 0;
  sp = 0;
  cmd = [];
  last_abort_cleared = some now;
}

abbrev pub is_none {ℓ} : {A : Type ℓ} → Option A → Bool
is_none none = true
is_none (some a) = false

abbrev pub served : Device → ℕ → Option ℕ → Device
served dev now none = record dev { abort_due = some (now + 1) }
served dev now (some t) = if leb t now then reset dev now else dev

unfoldable pub serve_abort : Device → ℕ → Device
serve_abort dev now =
    if dev.abort_pending && (is_none dev.done_at && (is_none dev.pending && not dev.abort_never))
    then served dev now dev.abort_due
    else dev

unfoldable pub advance : Device → ℕ → Device
advance dev now = serve_abort (staged dev now) now

abbrev pub bit : Bool → ℕ → ℕ
bit true n = n
bit false n = 0

-- The bits are distinct.
unfoldable pub status_bits : Device → ℕ
status_bits dev =
    code dev.state * 16
    + bit (has_reply dev.state && ltb dev.rp (length dev.response)) 0x80
    + bit (has_reply dev.state && ltb dev.sp (length dev.status)) 0x40
    + bit dev.error_busy 0x08
    + bit dev.abort_pending 0x04
    + bit dev.new_command 0x01

abbrev pub read_data : Device → Device × ℕ
read_data dev =
    if not (has_reply dev.state) || leb (length dev.response) dev.rp
    then (dev, 0x00)
    else (record dev { rp = dev.rp + 1 }, get_or dev.response dev.rp 0)

abbrev pub read_status : Device → Device × ℕ
read_status dev =
    if not (has_reply dev.state) || leb (length dev.status) dev.sp
    then (dev, 0x00)
    else (record dev { sp = dev.sp + 1 }, get_or dev.status dev.sp 0)

-- A read on the device of now.
unfoldable pub read_at : Device → ℕ → Device × ℕ
read_at dev addr =
    if addr == 0xDF1C
    then (dev, if dev.present then status_bits dev else 0xFF)
    else if addr == 0xDF1D
    then (dev, if dev.present then 0xC9 else 0xFF)
    else if addr == 0xDF1E
    then read_data dev
    else if addr == 0xDF1F
    then read_status dev
    else (dev, 0x00)

unfoldable pub read : Device → ℕ → ℕ → Device × ℕ
read dev now addr = read_at (advance dev now) addr

-- value & mask
abbrev pub has : ℕ → ℕ → Bool
has value mask = not (bit_and value mask == 0)

abbrev pub violated : Bool → Violation → Device → Device
violated true v dev = record dev { violations = dev.violations ++ (v ∷ []) }
violated false v dev = dev

abbrev pub due_of : ℕ → Delay → Due
due_of now none = at_infinity
due_of now (some d) = at_unit (now + d)

abbrev pub pending_of : Reply → Blocks × List ℕ
pending_of r = elim r.delay [ none ↦ ([], []) | some d ↦ (r.blocks, r.status) ]

abbrev pub wait_for : ℕ → Device × Reply → Device
wait_for now r = record r.0 {
  pending = some (pending_of r.1);
  done_at = some (due_of now r.1.delay);
}

unfoldable pub push : Device → List ℕ → ℕ → Result Device
push dev cmd now = do
  r ←
      execute
        (record dev { state = st_busy; new_command = true; log = dev.log ++ ((now, cmd) ∷ []) }) cmd
        now
  ok (wait_for now r)

abbrev pub is_idle : Handshake → Bool
is_idle st_idle = true
is_idle _ = false

-- The branch for CTRL_ACC, by the state that it meets.
abbrev pub accepted : Handshake → Device → Device
accepted st_more dev =
    load_block (record dev { accepts = dev.accepts + 1; accepts_on_more = dev.accepts_on_more + 1 })
accepted st_last dev = record dev {
  accepts = dev.accepts + 1;
  state = st_idle;
  response = [];
  status = [];
  rp = 0;
  sp = 0;
}
accepted _ dev = dev

abbrev pub accept : Device → Device
accept dev = accepted dev.state (
    violated (has_reply dev.state && ltb dev.rp (length dev.response))
      (unread_bytes (length dev.response - dev.rp)) dev)

abbrev pub abort : Device → ℕ → Device
abort dev now = record dev {
  aborts = dev.aborts + 1;
  abort_times = dev.abort_times ++ (now ∷ []);
  abort_pending = true;
  abort_due = none;
}

abbrev pub cleared : Device → Device
cleared dev = record dev { cmd = [] }

unfoldable pub try_push : Device → ℕ → Result Device
try_push dev now =
    if not (is_idle dev.state) || dev.new_command
    then ok (cleared (record dev { error_busy = true; pushes_rejected = dev.pushes_rejected + 1 }))
    else (do pushed ← push dev dev.cmd now; ok (cleared pushed))

abbrev pub when : Bool → (Device → Device) → Device → Device
when true f dev = f dev
when false f dev = dev

-- What a write to $DF1C does before the command is pushed.
unfoldable pub controlled : Device → ℕ → ℕ → Device
controlled dev now value =
    when (has value 0x04) (λ d. abort d now)
      (when (has value 0x02) accept (
        when (has value 0x08) (λ d. record d { error_busy = false })
          (violated (has value 0x04 && has value 0x01) abort_with_push
            (record dev { ctrl_writes = dev.ctrl_writes ++ ((now, value) ∷ []) }))))

-- A write on the device of now.
unfoldable pub write_at : Device → ℕ → ℕ → ℕ → Result Device
write_at dev now addr value =
    let seen = violated dev.abort_pending (wrote_in_abort value addr) dev in
    if addr == 0xDF1D
    then ok (record seen { cmd = seen.cmd ++ (value ∷ []) })
    else if addr == 0xDF1C
    then (let done = controlled seen now value in
        if has value 0x01 then try_push done now else ok done)
    else ok dev

unfoldable pub write : Device → ℕ → ℕ → ℕ → Result Device
write dev now addr value = write_at (advance dev now) now addr value

-- [c for _, c in self.log]
unfoldable pub commands : Device → List (List ℕ)
commands dev = map (λ e. e.1) dev.log

-- [c[1] for c in … if len(c) >= 2]
unfoldable pub ops_of : List (List ℕ) → List ℕ
ops_of [] = []
ops_of (c ∷ cs) = let rest = ops_of cs in if leb 2 (length c) then get_or c 1 0 ∷ rest else rest

unfoldable pub ops : Device → List ℕ
ops dev = ops_of (commands dev)

unfoldable pub idle : Device → ℕ → Device × Bool
idle dev now =
    let settled = advance dev now in
    (settled, is_idle settled.state && (not settled.new_command && not settled.abort_pending))
