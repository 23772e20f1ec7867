-- ===== src/TrustStore/Slots.antt =====
-- tools/trust_store.py: the two slot files of the store, the choice between them, `lookup` and `save`.
pub mod Choice
pub mod Safety
pub mod Records
pub mod Saved
pub mod Durable
pub mod Saving
use c64_https.Common.{
  ℕ, ◌+◌, ◌-◌, ◌%◌, Bool, true, false, ◌&&◌, ◌||◌, Option, none, some, List, [], ◌∷◌, ◌++◌, map,
  ltb, leb, ◌==◌, if◌then◌else◌, length, list_eq, replicate, Result, ok, raised, ◌>>=◌, ◌>>◌, guard,
  store_error, type_error,
}
use Prim.Native.Nat.{bit_xor}
use c64_https.TrustStore.Hashlib.{Hash}
use c64_https.TrustStore.{
  Record, Host, of_record, host_key, encode, decode, slot_ok, slot_absent, r_format, r_checksum,
  r_tie, r_notready, r_full, max_recs,
}

-- What a slot holds: no file, a failure to open it by its code, or the file's content.
pub data Slot : Type 0 where
  absent : Slot
  open_failure : ℕ → Slot
  content : List ℕ → Slot

pub data State : Type 0 where
  st_none st_valid st_empty st_fail : State

pub record Selection : Type 0 where
  pub state : State
  pub reason : ℕ
  pub slot : ℕ
  pub gen : ℕ
  pub records : Option (List Record)
  pub slot_st : ℕ × ℕ

-- reason in TOLERABLE
abbrev pub tolerable : ℕ → Bool
tolerable code = code == slot_absent || code == r_format || code == r_checksum

-- d = (b - a) & 0xFFFF, on Python's integers
abbrev pub serial_distance : ℕ → ℕ → ℕ
serial_distance a b = (b + (65536 - a % 65536)) % 65536

-- True if b is newer than a, False if a is, None if neither
unfoldable pub serial_newer : ℕ → ℕ → Option Bool
serial_newer a b =
    let d = serial_distance a b in if d == 0 || d == 0x8000 then none else some (ltb d 0x8000)

-- `try: decode(slot) … except StoreError`
abbrev pub code_of : Result (ℕ × List Record) → Result ℕ
code_of (ok _) = ok slot_ok
code_of (raised (store_error c)) = ok c
code_of (raised other) = raised other

abbrev pub failed : ℕ → ℕ × ℕ → Selection
failed reason st = record {
  state = st_fail;
  reason = reason;
  slot = 1;
  gen = 0;
  records = none;
  slot_st = st;
}

abbrev pub empty : ℕ × ℕ → Selection
empty st = record {
  state = st_empty;
  reason = slot_ok;
  slot = 1;
  gen = 0;
  records = some [];
  slot_st = st;
}

abbrev pub valid : ℕ → ℕ × List Record → ℕ × ℕ → Selection
valid pick (gen, recs) st = record {
  state = st_valid;
  reason = slot_ok;
  slot = pick;
  gen = gen;
  records = some recs;
  slot_st = st;
}

-- recs[i] = rec at the first record of the key, or None where there is none
unfoldable pub replace : Record → List Record → Option (List Record)
replace rec [] = none
replace rec (r ∷ rs) =
    if list_eq r.key rec.key
    then some (rec ∷ rs)
    else (elim (replace rec rs) [ some rs' ↦ some (r ∷ rs') | none ↦ none ])

unfoldable pub find_key : List ℕ → List Record → Option Record
find_key key [] = none
find_key key (r ∷ rs) = if list_eq r.key key then some r else find_key key rs

-- The loop of `save`, with its `else`: replace a record of the key, or add one if there is room.
unfoldable pub put_record : Record → List Record → Result (List Record)
put_record rec recs = elim (replace rec recs) [
  | some recs' ↦ ok recs'
  | none ↦
      if leb max_recs (length recs) then raised (store_error r_full) else ok (recs ++ (rec ∷ []))
]

-- `sel.state not in (ST_VALID, ST_EMPTY)`
abbrev pub is_ready : State → Bool
is_ready st_valid = true
is_ready st_empty = true
is_ready _ = false

abbrev pub is_valid : State → Bool
is_valid st_valid = true
is_valid _ = false

-- `list(sel.records)`, and a loop over `sel.records`
abbrev pub iterated : Option (List Record) → Result (List Record)
iterated (some recs) = ok recs
iterated none = raised type_error

module _ (sha : Hash) where
  unfoldable pub slot_result : Slot → Result ℕ
  slot_result absent = ok slot_absent
  slot_result (open_failure code) = ok code
  slot_result (content file) = code_of (decode sha file)

  -- decode(slot) begins with bytes(slot): an integer gives that many zero bytes, None is a TypeError
  abbrev pub decode_slot : Slot → Result (ℕ × List Record)
  decode_slot (content file) = decode sha file
  decode_slot (open_failure code) = decode sha (replicate code 0)
  decode_slot absent = raised type_error

  abbrev pub pick_valid : ℕ → Slot → ℕ × ℕ → Result Selection
  pick_valid pick slot st = do d ← decode_slot slot; ok (valid pick d st)

  abbrev pub pick_newer : Option Bool → Slot → Slot → ℕ × ℕ → Result Selection
  pick_newer none slot_a slot_b st = ok (failed r_tie st)
  pick_newer (some true) slot_a slot_b st = pick_valid 1 slot_b st
  pick_newer (some false) slot_a slot_b st = pick_valid 0 slot_a st

  unfoldable pub choose : Slot → Slot → ℕ → ℕ → Result Selection
  choose slot_a slot_b sa sb =
      if sa == slot_ok && sb == slot_ok
      then (do
        a ← decode_slot slot_a
        b ← decode_slot slot_b
        pick_newer (serial_newer a.0 b.0) slot_a slot_b (sa, sb))
      else if sa == slot_ok
      then (if tolerable sb then pick_valid 0 slot_a (sa, sb) else ok (failed sb (sa, sb)))
      else if sb == slot_ok
      then (if tolerable sa then pick_valid 1 slot_b (sa, sb) else ok (failed sa (sa, sb)))
      else if sa == slot_absent && sb == slot_absent
      then ok (empty (sa, sb))
      else ok (failed (if sa == slot_absent then sb else sa) (sa, sb))

  unfoldable pub select : Slot → Slot → Result Selection
  select slot_a slot_b = do
    sa ← slot_result slot_a
    sb ← slot_result slot_b
    choose slot_a slot_b sa sb

  unfoldable pub lookup : Selection → Host → Result (Option Record)
  lookup sel host =
      if is_valid sel.state
      then (do key ← host_key sha host; recs ← iterated sel.records; ok (find_key key recs))
      else ok none

  unfoldable pub save : Slot → Slot → Host → Record → Result (ℕ × List ℕ)
  save slot_a slot_b host r = do
    sel ← select slot_a slot_b
    guard (is_ready sel.state) (store_error r_notready)
    key ← host_key sha host
    old ← iterated sel.records
    recs ← put_record (record r { key = key }) old
    file ← encode sha ((sel.gen + 1) % 65536) (map of_record recs)
    ok (bit_xor sel.slot 1, file)
