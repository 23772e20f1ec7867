-- ===== src/M3Device/Sound.antt =====
-- tools/check_m3_client.py: what holds of every device that reads and writes bring about.
use c64_https.Common.{
  ℕ, ◌+◌, ◌-◌, ◌≤◌, Bool, true, false, not, ◌&&◌, ◌||◌, Option, none, some, List, [], ◌∷◌, ◌++◌,
  ltb, leb, ◌==◌, length, is_nil, Result, ok, ◌>>=◌, >>=-eq-ok, ok-injective, ◌≡◌, refl, sym,
  if_both, Bool-cases, true≢false, and_true, inl, inr, arith,
}
use mathlib.Core.Path.{subst}
use c64_https.M3Device.{
  Handshake, st_idle, st_busy, st_last, st_more, has_reply, Blocks, Device, Violation,
  abort_with_push, wrote_in_abort, unread_bytes,
}
use c64_https.M3Device.Nios.{execute}
use c64_https.M3Device.Kept.{Registers, registers, Keeps, execute-Keeps}
use c64_https.M3Device.Registers.{
  loaded, load_block, stage, is_due, staged_by, staged, reset, is_none, read_data, read_status,
  served, serve_abort, advance, read_at, read, violated, wait_for, push, is_idle, accepted, accept,
  abort, cleared, try_push, when, has, controlled, write_at, write,
}

-- What goes with a state: a command runs exactly in st_busy, blocks are left exactly in st_more, and
-- there is a reply only in st_last and st_more. The last two say that nothing is pending and nothing due.
abbrev pub Fits : Handshake → Bool → Blocks → List ℕ → List ℕ → Bool → Bool → Type 0
Fits st_idle new blocks response status waits due =
    (new ≡ false) × (blocks ≡ []) × (response ≡ []) × (status ≡ []) × (waits ≡ true) × (due ≡ true)
Fits st_busy new blocks response status waits due =
    (new ≡ true) × (blocks ≡ []) × (response ≡ []) × (status ≡ []) × (waits ≡ false) × (due ≡ false)
Fits st_last new blocks response status waits due =
    (new ≡ false) × (blocks ≡ []) × (waits ≡ true) × (due ≡ true)
Fits st_more new blocks response status waits due =
    (new ≡ false) × (is_nil blocks ≡ false) × (waits ≡ true) × (due ≡ true)

abbrev pub IsFitting : Registers → Bool → Bool → Type 0
IsFitting r waits due = Fits r.state r.new_command r.blocks r.response r.status waits due

abbrev pub InRange : Registers → Type 0
InRange r = (r.rp ≤ length r.response) × (r.sp ≤ length r.status) × (r.accepts_on_more ≤ r.accepts)

abbrev pub IsSound : Device → Type 0
IsSound dev =
    IsFitting (registers dev) (is_none dev.pending) (is_none dev.done_at) × InRange (registers dev)

loaded-IsSound :
    (dev : Device) (bs : Blocks)
    → dev.new_command ≡ false
    → is_none dev.pending ≡ true
    → is_none dev.done_at ≡ true
    → dev.sp ≤ length dev.status
    → dev.accepts_on_more ≤ dev.accepts
    → IsSound (loaded dev bs)
unfolding is_nil
loaded-IsSound dev [] n p d s a = ((n, refl, p, d), (omega arith, s, a))
loaded-IsSound dev (b ∷ []) n p d s a = ((n, refl, p, d), (omega arith, s, a))
loaded-IsSound dev (b ∷ c ∷ bs) n p d s a = ((n, refl, p, d), (omega arith, s, a))

staged_by-IsSound :
    (dev : Device) (o : Option (Blocks × List ℕ)) → IsSound dev → IsSound (staged_by dev o)
unfolding stage load_block
staged_by-IsSound dev none h = h
staged_by-IsSound dev (some reply) h =
    loaded-IsSound
      (record dev {
        done_at = none;
        pending = none;
        new_command = false;
        blocks = reply.0;
        status = reply.1;
        sp = 0;
      })
      reply.0 refl refl refl (omega arith) h.1.2

staged-IsSound : (dev : Device) (now : ℕ) → IsSound dev → IsSound (staged dev now)
staged-IsSound dev now h =
    if_both IsSound (is_due dev.done_at now) _ dev (staged_by-IsSound dev dev.pending h) h

reset-IsSound :
    (dev : Device) (now : ℕ)
    → is_none dev.pending ≡ true
    → is_none dev.done_at ≡ true
    → IsSound dev
    → IsSound (reset dev now)
reset-IsSound dev now p d h = ((refl, refl, refl, refl, p, d), (omega arith, omega arith, h.1.2))

served-IsSound :
    (dev : Device) (now : ℕ) (o : Option ℕ)
    → is_none dev.pending ≡ true
    → is_none dev.done_at ≡ true
    → IsSound dev
    → IsSound (served dev now o)
served-IsSound dev now none p d h = h
served-IsSound dev now (some t) p d h =
    if_both IsSound (leb t now) _ dev (reset-IsSound dev now p d h) h

serve_abort-IsSound : (dev : Device) (now : ℕ) → IsSound dev → IsSound (serve_abort dev now)
unfolding serve_abort
serve_abort-IsSound dev now h =
    let calm : Bool =
      dev.abort_pending && (is_none dev.done_at && (is_none dev.pending && not dev.abort_never)) in
    elim (Bool-cases calm) [
      | inl e ↦
          let rest = (and_true dev.abort_pending _ e).1 in
          let d = (and_true (is_none dev.done_at) _ rest).0 in
          let p = (and_true (is_none dev.pending) _ (and_true (is_none dev.done_at) _ rest).1).0 in
          rw (e) (served-IsSound dev now dev.abort_due p d h)
      | inr e ↦ rw (e) h
    ]

pub advance-IsSound : (dev : Device) (now : ℕ) → IsSound dev → IsSound (advance dev now)
unfolding advance
advance-IsSound dev now h = serve_abort-IsSound (staged dev now) now (staged-IsSound dev now h)

abbrev First : Device × ℕ → Type 0
First x = IsSound x.0

-- A byte is read only where one is left.
left : (reply : Bool) (n m : ℕ) → (not reply || leb n m) ≡ false → m + 1 ≤ n
left true n m e = ground arith
left false n m e = absurd (true≢false e)

read_data-IsSound : (dev : Device) → IsSound dev → IsSound (read_data dev).0
read_data-IsSound dev h =
    elim (Bool-cases (not (has_reply dev.state) || leb (length dev.response) dev.rp)) [
      | inl e ↦ rw (e) h
      | inr e ↦
          rw (e) (h.0, (left (has_reply dev.state) (length dev.response) dev.rp e, h.1.1, h.1.2))
    ]

read_status-IsSound : (dev : Device) → IsSound dev → IsSound (read_status dev).0
read_status-IsSound dev h =
    elim (Bool-cases (not (has_reply dev.state) || leb (length dev.status) dev.sp)) [
      | inl e ↦ rw (e) h
      | inr e ↦
          rw (e) (h.0, (h.1.0, left (has_reply dev.state) (length dev.status) dev.sp e, h.1.2))
    ]

read_at-IsSound : (dev : Device) (addr : ℕ) → IsSound dev → IsSound (read_at dev addr).0
unfolding read_at
read_at-IsSound dev addr h = if_both First (addr == 0xDF1C) _ _ h (
    if_both First (addr == 0xDF1D) _ _ h (
      if_both First (addr == 0xDF1E) (read_data dev) _ (read_data-IsSound dev h)
        (if_both First (addr == 0xDF1F) (read_status dev) _ (read_status-IsSound dev h) h)))

violated-IsSound :
    (t : Bool) (v : Violation) (dev : Device) → IsSound dev → IsSound (violated t v dev)
violated-IsSound true v dev h = h
violated-IsSound false v dev h = h

when-IsSound :
    (t : Bool) (f : Device → Device) (dev : Device)
    → ((d : Device) → IsSound d → IsSound (f d))
    → IsSound dev
    → IsSound (when t f dev)
when-IsSound true f dev k h = k dev h
when-IsSound false f dev k h = h

Fits-in :
    (st : Handshake) (dev : Device)
    → dev.state ≡ st
    → IsSound dev
    → Fits st dev.new_command dev.blocks dev.response dev.status
        (is_none dev.pending)
        (is_none dev.done_at)
Fits-in st dev e h =
    subst
      (λ t.
        Fits t dev.new_command dev.blocks dev.response dev.status (is_none dev.pending)
          (is_none dev.done_at))
      e h.0

accepted-IsSound :
    (st : Handshake) (dev : Device) → dev.state ≡ st → IsSound dev → IsSound (accepted st dev)
unfolding load_block
accepted-IsSound st_idle dev e h = h
accepted-IsSound st_busy dev e h = h
accepted-IsSound st_last dev e h =
    let f = Fits-in st_last dev e h in
    ((f.0, f.1, refl, refl, f.2, f.3), (omega arith, omega arith, ground (arith, h.1.2)))
accepted-IsSound st_more dev e h =
    let f = Fits-in st_more dev e h in
    loaded-IsSound
      (record dev { accepts = dev.accepts + 1; accepts_on_more = dev.accepts_on_more + 1 })
      dev.blocks f.0 f.2 f.3 h.1.1 (ground (arith, h.1.2))

accepted_seen :
    (t : Bool) (v : Violation) (dev : Device)
    → IsSound dev
    → IsSound (accepted dev.state (violated t v dev))
accepted_seen true v dev h = accepted-IsSound dev.state (violated true v dev) refl h
accepted_seen false v dev h = accepted-IsSound dev.state dev refl h

accept-IsSound : (dev : Device) → IsSound dev → IsSound (accept dev)
accept-IsSound dev h =
    accepted_seen (has_reply dev.state && ltb dev.rp (length dev.response))
      (unread_bytes (length dev.response - dev.rp)) dev h

controlled-IsSound :
    (dev : Device) (now value : ℕ) → IsSound dev → IsSound (controlled dev now value)
unfolding controlled
controlled-IsSound dev now value h =
    when-IsSound (has value 0x04) (λ d. abort d now) _ (λ d k. k)
      (when-IsSound (has value 0x02) accept _ accept-IsSound (
        when-IsSound (has value 0x08) (λ d. record d { error_busy = false }) _ (λ d k. k)
          (violated-IsSound (has value 0x04 && has value 0x01) abort_with_push _ h)))

not_busy : (st : Handshake) (new : Bool) → (not (is_idle st) || new) ≡ false → st ≡ st_idle
not_busy st_idle new e = refl
not_busy st_busy new e = absurd (true≢false e)
not_busy st_last new e = absurd (true≢false e)
not_busy st_more new e = absurd (true≢false e)

push-IsSound :
    (dev : Device) (now : ℕ) (dev' : Device)
    → IsSound dev
    → dev.state ≡ st_idle
    → push dev dev.cmd now ≡ ok dev'
    → IsSound (cleared dev')
unfolding push
push-IsSound dev now dev' h i e =
    let busy : Device = record dev {
      state = st_busy;
      new_command = true;
      log = dev.log ++ ((now, dev.cmd) ∷ []);
    } in
    let x = >>=-eq-ok (execute busy dev.cmd now) (λ r. ok (wait_for now r)) e in
    let kept : registers x.0.0 ≡ registers busy =
      subst (Keeps busy) x.1 (execute-Keeps busy dev.cmd now) in
    let f = Fits-in st_idle dev i h in
    let Sound : Registers → Type 0 = λ r. IsFitting r false false × InRange r in
    subst (λ d. IsSound (cleared d)) (ok-injective (wait_for now x.0) dev' x.2)
      (subst Sound (sym kept) ((refl, f.1, f.2, f.3, refl, refl), h.1))

try_push-IsSound :
    (dev : Device) (now : ℕ) (dev' : Device)
    → IsSound dev
    → try_push dev now ≡ ok dev'
    → IsSound dev'
unfolding try_push push
try_push-IsSound dev now dev' h e =
    let busy : Bool = not (is_idle dev.state) || dev.new_command in
    elim (Bool-cases busy) [
      | inl b ↦ subst IsSound (ok-injective _ dev' (rw (b) at e)) h
      | inr b ↦
          let pushed = >>=-eq-ok (push dev dev.cmd now) (λ d. ok (cleared d)) (rw (b) at e) in
          subst IsSound (ok-injective (cleared pushed.0) dev' pushed.2)
            (push-IsSound dev now pushed.0 h (not_busy dev.state dev.new_command b) pushed.1)
    ]

write_at-IsSound :
    (dev : Device) (now addr value : ℕ) (dev' : Device)
    → IsSound dev
    → write_at dev now addr value ≡ ok dev'
    → IsSound dev'
unfolding write_at
write_at-IsSound dev now addr value dev' h e =
    let seen : Device = violated dev.abort_pending (wrote_in_abort value addr) dev in
    let ok_seen : IsSound seen =
      violated-IsSound dev.abort_pending (wrote_in_abort value addr) dev h in
    elim (Bool-cases (addr == 0xDF1D)) [
      | inl d ↦ subst IsSound (ok-injective _ dev' (rw (d) at e)) ok_seen
      | inr d ↦ elim (Bool-cases (addr == 0xDF1C)) [
        | inl c ↦ elim (Bool-cases (has value 0x01)) [
          | inl p ↦
              try_push-IsSound (controlled seen now value) now dev'
                (controlled-IsSound seen now value ok_seen) (rw (d, c, p) at e)
          | inr p ↦
              subst IsSound (ok-injective _ dev' (rw (d, c, p) at e))
                (controlled-IsSound seen now value ok_seen)
        ]
        | inr c ↦ subst IsSound (ok-injective dev dev' (rw (d, c) at e)) h
      ]
    ]

-- What a client does: a read or a write of a register, at a time.
pub data Step : Type 0 where
  reads : (now addr : ℕ) → Step
  writes : (now addr value : ℕ) → Step

unfoldable pub step : Device → Step → Result Device
step dev (reads now addr) = ok (read dev now addr).0
step dev (writes now addr value) = write dev now addr value

unfoldable pub run : Device → List Step → Result Device
run dev [] = ok dev
run dev (s ∷ ss) = do dev' ← step dev s; run dev' ss

step-IsSound :
    (dev : Device) (s : Step) (dev' : Device) → IsSound dev → step dev s ≡ ok dev' → IsSound dev'
unfolding step read write
step-IsSound dev (reads now addr) dev' h e =
    subst IsSound (ok-injective _ dev' e)
      (read_at-IsSound (advance dev now) addr (advance-IsSound dev now h))
step-IsSound dev (writes now addr value) dev' h e =
    write_at-IsSound (advance dev now) now addr value dev' (advance-IsSound dev now h) e

-- In every device that any reads and writes at any times bring about from a sound one, whatever commands
-- they send, a command is running exactly in the busy state, blocks are left exactly in the state that
-- announces more, an idle or busy device has no reply, no read position is past its end, and no more
-- accepts on more blocks are counted than accepts.
pub run-IsSound :
    (dev : Device) (ss : List Step) (dev' : Device)
    → IsSound dev
    → run dev ss ≡ ok dev'
    → IsSound dev'
unfolding run
run-IsSound dev [] dev' h e = subst IsSound (ok-injective dev dev' e) h
run-IsSound dev (s ∷ ss) dev' h e =
    let x = >>=-eq-ok (step dev s) (λ d. run d ss) e in
    run-IsSound x.0 ss dev' (step-IsSound dev s x.0 h x.1) x.2
