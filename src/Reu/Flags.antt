-- ===== src/Reu/Flags.antt =====
-- tools/_reu_model.py: the status register, whose END OF BLOCK a read clears.
use c64_https.Common.{
  ℕ, zero, suc, if_both, ◌%◌, ◌<◌, ◌≡◌, refl, ◌⊎◌, inl, inr, true, not, ◌==◌, ◌&&◌, Result, ok,
  raised, arith,
}
use Prim.Native.Nat.{bit_and, bit_or}
use c64_https.Reu.{Step, written, Reu, store, register, stashed, fetched, execute, read, write}
use c64_https.Reu.Transfer.{IsCommand, IsReady, execute_stash, execute_fetch}

-- Nothing but END OF BLOCK is ever set.
abbrev pub IsFlags : ℕ → Type 0
IsFlags status = (status ≡ 0) ⊎ (status ≡ 0x40)

set_flag : (status : ℕ) → IsFlags status → bit_or status 0x40 ≡ 0x40
set_flag status (inl e) = rw e refl
set_flag status (inr e) = rw e refl

clear_flag : (status : ℕ) → IsFlags status → bit_and status 0x1F ≡ 0
clear_flag status (inl e) = rw e refl
clear_flag status (inr e) = rw e refl

-- The status after a call.
record Leaves {A : Type 0} (p : Step A) : Type 0 where
  flags : IsFlags p.0.status

execute-Leaves : (u : Reu) (cmd : ℕ) → IsFlags u.status → Leaves (execute u cmd)
unfolding execute stashed fetched
execute-Leaves u cmd h =
    let same : (r : Result (Unit {0})) → Leaves (u, r) = λ r. record { flags = h } in
    let set = inr (set_flag u.status h) in
    if_both Leaves (bit_and cmd 0x10 == 0) _ _ (same _) (
      if_both Leaves (not (u.regs 10 == 0)) _ _ (same _) (
        if_both Leaves (u.size == 0) _ _ (same _) (
          if_both Leaves (bit_and cmd 3 == 0) _ _ (record { flags = set })
            (if_both Leaves (bit_and cmd 3 == 1) _ _ (record { flags = set }) (same _)))))

read-Leaves : (u : Reu) (addr : ℕ) → IsFlags u.status → Leaves (read u addr)
unfolding read
read-Leaves u addr h =
    if_both Leaves (not u.present) _ _ (record { flags = h })
      (if_both Leaves (addr == 0xDF00) _ _ (record { flags = inl (clear_flag u.status h) })
        (record { flags = h }))

-- The step of `write` behind its test for a unit, on the register that the address is.
written-Leaves :
    (u : Reu) (addr value : ℕ) (i : Result ℕ) → IsFlags u.status → Leaves (written u addr value i)
written-Leaves u addr value (raised e) h = record { flags = h }
written-Leaves u addr value (ok i) h =
    if_both Leaves (addr == 0xDF01 && not (bit_and value 0x80 == 0)) _ _
      (execute-Leaves (record u { regs = store u.regs i (value % 256) }) value h)
      (record { flags = h })

write-Leaves : (u : Reu) (addr value : ℕ) → IsFlags u.status → Leaves (write u addr value)
unfolding write
write-Leaves u addr value h =
    if_both Leaves (not u.present) _ _ (record { flags = h })
      (written-Leaves u addr value (register addr) h)

-- No read and no write of a register, whatever the address and the value, sets another bit of the status
-- than END OF BLOCK.
pub step-IsFlags :
    (u : Reu) (addr value : ℕ)
    → IsFlags u.status
    → IsFlags (read u addr).0.status × IsFlags (write u addr value).0.status
step-IsFlags u addr value h = ((read-Leaves u addr h).flags, (write-Leaves u addr value h).flags)

-- After a transfer of either type the status reads END OF BLOCK once, and then 0, where the unit is
-- present and no other bit was set before.
pub read_end_of_block :
    (u : Reu) (cmd op : ℕ)
    → u.present ≡ true
    → IsFlags u.status
    → IsCommand cmd op
    → op < 2
    → IsReady u
    → ((read (execute u cmd).0 0xDF00).1 ≡ ok 0x40)
      × ((read (read (execute u cmd).0 0xDF00).0 0xDF00).1 ≡ ok 0)
unfolding read stashed fetched
read_end_of_block u cmd zero here f c small h =
    let e = set_flag u.status f in
    (rw (execute_stash u cmd c h, here, e) refl, rw (execute_stash u cmd c h, here, e) refl)
read_end_of_block u cmd (suc zero) here f c small h =
    let e = set_flag u.status f in
    (rw (execute_fetch u cmd c h, here, e) refl, rw (execute_fetch u cmd c h, here, e) refl)
read_end_of_block u cmd (suc (suc op)) here f c small h = absurd (omega arith)
