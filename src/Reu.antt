-- ===== src/Reu.antt =====
-- tools/_reu_model.py: the RAM expansion unit that the 6502 interpreter of the tools sees at $DF00. A
-- memory is a function from addresses to bytes.
pub mod Transfer
pub mod Flags
use c64_https.Common.{
  ℕ, zero, suc, ◌+◌, ◌-◌, ◌*◌, ◌/◌, ◌%◌, Bool, true, false, not, ◌&&◌, ◌||◌, List, [], ◌∷◌, ◌++◌,
  ltb, leb, ◌==◌, if◌then◌else◌, Result, ok, raised, ◌>>=◌, ◌>>◌, guard, index_error,
  not_implemented, zero_division_error, Fault,
}
use Prim.Native.Nat.{bit_and, bit_or}

abbrev pub Memory : Type 0
Memory = ℕ → ℕ

-- memory[at] = byte
abbrev pub store : Memory → ℕ → ℕ → Memory
store m at byte = λ x. if x == at then byte else m x

pub data Op : Type 0 where
  stash fetch : Op

-- An entry of the log: the operation, both addresses and the length.
pub record Entry : Type 0 where
  pub op : Op
  pub c64 : ℕ
  pub reu : ℕ
  pub len : ℕ

pub record Reu : Type 0 where
  pub ram : Memory
  pub mem : Memory
  -- len(self.mem)
  pub size : ℕ
  pub present : Bool
  pub absent_status : ℕ
  pub regs : Memory
  pub status : ℕ
  pub log : List Entry

unfoldable pub new_reu : Memory → ℕ → Bool → ℕ → Reu
new_reu ram size present absent_status = record {
  ram = ram;
  mem = λ x. 0;
  size = size;
  present = present;
  absent_status = absent_status;
  regs = λ x. 0;
  status = 0;
  log = [];
}

unfoldable pub handles : ℕ → Bool
handles addr = leb 0xDF00 addr && leb addr 0xDF0A

-- The byte of an 11-byte array that `regs[addr - 0xDF00]` is, where a negative index counts from the end.
abbrev pub register : ℕ → Result ℕ
register addr =
    if leb 0xDF00 addr
    then (do guard (ltb (addr - 0xDF00) 11) index_error; ok (addr - 0xDF00))
    else (do guard (leb (0xDF00 - addr) 11) index_error; ok (11 - (0xDF00 - addr)))

-- What a call leaves, and what it returns or raises.
abbrev pub Step : Type 0 → Type 0
Step A = Reu × Result A

unfoldable pub read : Reu → ℕ → Step ℕ
read u addr =
    if not u.present
    then (u, ok u.absent_status)
    else if addr == 0xDF00
    then (record u { status = bit_and u.status 0x1F }, ok u.status)
    else (u, (do i ← register addr; ok (u.regs i)))

-- The loop of a transfer, for the last `k` of its bytes, the first of which is number `i`: from one
-- memory to the other, where an address wraps at the size of its memory.
unfoldable pub copied : ℕ → ℕ → Memory → ℕ → ℕ → Memory → ℕ → ℕ → Memory
copied zero i source from source_size target to target_size = target
copied (suc k) i source from source_size target to target_size =
    copied k (i + 1) source from source_size
      (store target ((to + i) % target_size) (source ((from + i) % source_size))) to target_size

-- self.regs[a] | self.regs[a + 1] << 8, which are bytes
abbrev pub word_at : Memory → ℕ → ℕ
word_at regs a = regs a + 256 * regs (a + 1)

-- n or 0x10000
abbrev pub or_64k : ℕ → ℕ
or_64k n = if n == 0 then 0x10000 else n

-- self.regs[2:9] = saved[2:9] where the command asks for autoload
abbrev pub autoload : ℕ → Memory → Memory → Memory
autoload cmd saved regs =
    if bit_and cmd 0x20 == 0 then regs else (λ x. if leb 2 x && ltb x 9 then saved x else regs x)

-- What follows the loop of a transfer: its log entry, autoload, and END OF BLOCK.
abbrev pub finished : ℕ → Memory → Reu → Entry → Reu
finished cmd saved u e = record u {
  regs = autoload cmd saved u.regs;
  status = bit_or u.status 0x40;
  log = u.log ++ (e ∷ []);
}

unfoldable pub stashed : ℕ → Reu → ℕ → ℕ → ℕ → Reu
stashed cmd u c64 reu n =
    finished cmd u.regs (record u { mem = copied n 0 u.ram c64 65536 u.mem reu u.size })
      (record { op = stash; c64 = c64; reu = reu; len = n })

unfoldable pub fetched : ℕ → Reu → ℕ → ℕ → ℕ → Reu
fetched cmd u c64 reu n =
    finished cmd u.regs (record u { ram = copied n 0 u.mem reu u.size u.ram c64 65536 })
      (record { op = fetch; c64 = c64; reu = reu; len = n })

unfoldable pub execute : Reu → ℕ → Step (Unit {0})
execute u cmd =
    let c64 = word_at u.regs 2 in
    let reu = (word_at u.regs 4 + 65536 * u.regs 6) % u.size in
    let n = or_64k (word_at u.regs 7) in
    if bit_and cmd 0x10 == 0
    then (u, raised not_implemented)
    else if not (u.regs 10 == 0)
    then (u, raised not_implemented)
    else if u.size == 0
    then (u, raised zero_division_error)
    else if bit_and cmd 3 == 0
    then (stashed cmd u c64 reu n, ok tt)
    else if bit_and cmd 3 == 1
    then (fetched cmd u c64 reu n, ok tt)
    else (u, raised not_implemented)

-- `write` behind its test for a unit, on what the address is an index of.
abbrev pub written : Reu → ℕ → ℕ → Result ℕ → Step (Unit {0})
written u addr value (raised e) = (u, raised e)
written u addr value (ok i) =
    let v = record u { regs = store u.regs i (value % 256) } in
    if addr == 0xDF01 && not (bit_and value 0x80 == 0) then execute v value else (v, ok tt)

unfoldable pub write : Reu → ℕ → ℕ → Step (Unit {0})
write u addr value = if not u.present then (u, ok tt) else written u addr value (register addr)

-- `Bus`: the unit, and the model of another device, whose reads and writes are not part of this file.
pub record Bus (Other : Type 0) : Type 0 where
  pub reu : Reu
  pub other : Other

module _ {Other : Type 0} (other_read : Other → ℕ → Other × Result ℕ)
    (other_write : Other → ℕ → ℕ → Other × Result (Unit {0})) where
  unfoldable pub bus_read : Bus Other → ℕ → Bus Other × Result ℕ
  bus_read b addr =
      if handles addr
      then (record { reu = (read b.reu addr).0; other = b.other }, (read b.reu addr).1)
      else (
        record { reu = b.reu; other = (other_read b.other addr).0 },
        (other_read b.other addr).1,
      )

  unfoldable pub bus_write : Bus Other → ℕ → ℕ → Bus Other × Result (Unit {0})
  bus_write b addr value =
      if handles addr
      then (
        record { reu = (write b.reu addr value).0; other = b.other },
        (write b.reu addr value).1,
      )
      else (
        record { reu = b.reu; other = (other_write b.other addr value).0 },
        (other_write b.other addr value).1,
      )
