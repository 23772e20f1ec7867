-- ===== src/M3Device.antt =====
-- tools/check_m3_client.py: `M3Device`, the network processor behind five registers that the checks of
-- the client run against. The state of the device stands here; `Replies` and `Nios` have the commands,
-- and `Registers` the clock, the reads and the writes. A time is a number of units, and a handle of a
-- session a key of a list.
pub mod Replies
pub mod Nios
pub mod Registers
mod Kept
pub mod Sound
pub mod Exchange
use c64_https.Common.{
  ℕ, zero, suc, Bool, true, false, Option, none, some, List, [], ◌∷◌, ◌==◌, if◌then◌else◌,
}

-- ST_IDLE, ST_BUSY, ST_LAST, ST_MORE
pub data Handshake : Type 0 where
  st_idle st_busy st_last st_more : Handshake

unfoldable pub code : Handshake → ℕ
code st_idle = 0
code st_busy = 1
code st_last = 2
code st_more = 3

-- state & 2
abbrev pub has_reply : Handshake → Bool
has_reply st_idle = false
has_reply st_busy = false
has_reply st_last = true
has_reply st_more = true

-- An entry of a session's "rx".
pub data Event : Type 0 where
  data_event : List ℕ → Event
  idle_event : Event
  end_event : List ℕ → Event

pub record Session : Type 0 where
  pub rx : List Event
  pub claimed : Bool
  pub on_write : Option (List Event)

-- What `open_result` holds. Every kind without a branch of its own is the last.
pub data OpenResult : Type 0 where
  refuse refusedata : List ℕ → OpenResult
  oklong okshort okversion : ℕ → OpenResult
  okempty : OpenResult
  open_ok : ℕ → OpenResult

-- A number of units, and none for NEVER.
abbrev pub Delay : Type 0
Delay = Option ℕ

-- The value of `done_at` while a command runs: infinity for one that never completes.
pub data Due : Type 0 where
  at_unit : ℕ → Due
  at_infinity : Due

-- What the texts of `violations` report.
pub data Violation : Type 0 where
  wrote_in_abort : ℕ → ℕ → Violation
  abort_with_push : Violation
  unread_bytes : ℕ → Violation
  info_size release_size : ℕ → Violation
  gone_handle : ℕ → ℕ → Violation

abbrev pub Blocks : Type 0
Blocks = List (List ℕ)

abbrev pub Sessions : Type 0
Sessions = List (ℕ × Session)

pub record Device : Type 0 where
  pub present : Bool
  pub tls : Bool
  pub info : List ℕ
  pub ready_after : Option ℕ
  pub state : Handshake
  pub new_command : Bool
  pub error_busy : Bool
  pub abort_pending : Bool
  pub cmd : List ℕ
  pub blocks : Blocks
  pub response : List ℕ
  pub status : List ℕ
  pub rp : ℕ
  pub sp : ℕ
  pub done_at : Option Due
  pub pending : Option (Blocks × List ℕ)
  pub abort_due : Option ℕ
  pub sessions : Sessions
  pub gone : List ℕ
  pub open_result : OpenResult
  pub open_delay : Delay
  pub read_delay : Delay
  pub write_result : Option (List ℕ × List ℕ)
  pub on_write : Option (List Event)
  pub never : List ℕ
  pub slow : List (ℕ × Delay)
  pub forced_blocks : Option (Blocks × List ℕ)
  pub next_handle : ℕ
  pub release_delays : List Delay
  pub abort_never : Bool
  pub log : List (ℕ × List ℕ)
  pub ctrl_writes : List (ℕ × ℕ)
  pub violations : List Violation
  pub pushes_rejected : ℕ
  pub accepts : ℕ
  pub accepts_on_more : ℕ
  pub aborts : ℕ
  pub abort_times : List ℕ
  pub last_abort_cleared : Option ℕ
  pub writes : List (ℕ × List ℕ)
  pub last_open : Option (List ℕ)

abbrev pub fast : Delay
fast = some 2

abbrev pub info_ready : List ℕ
info_ready = 1 ∷ 2 ∷ 0 ∷ 7 ∷ 7 ∷ 3 ∷ 1 ∷ 0x35 ∷ 1 ∷ 0xFF ∷ 0xFF ∷ 0xFF ∷ 0 ∷ 0 ∷ 0 ∷ 0 ∷ []

-- M3Device(clock)
abbrev pub new_device : Device
new_device = record {
  present = true;
  tls = true;
  info = info_ready;
  ready_after = none;
  state = st_idle;
  new_command = false;
  error_busy = false;
  abort_pending = false;
  cmd = [];
  blocks = [];
  response = [];
  status = [];
  rp = 0;
  sp = 0;
  done_at = none;
  pending = none;
  abort_due = none;
  sessions = [];
  gone = [];
  open_result = open_ok 5;
  open_delay = fast;
  read_delay = fast;
  write_result = none;
  on_write = none;
  never = [];
  slow = [];
  forced_blocks = none;
  next_handle = 5;
  release_delays = [];
  abort_never = false;
  log = [];
  ctrl_writes = [];
  violations = [];
  pushes_rejected = 0;
  accepts = 0;
  accepts_on_more = 0;
  aborts = 0;
  abort_times = [];
  last_abort_cleared = none;
  writes = [];
  last_open = none;
}
