-- ===== src/M3Device/Exchange.antt =====
-- tools/check_m3_client.py: what a client reads of a reply, by the registers alone.
use c64_https.Common.{
  ℕ, zero, suc, ◌+◌, ◌-◌, ◌*◌, ◌%◌, ◌≤◌, ◌<◌, Bool, true, false, ◌&&◌, none, List, [], ◌∷◌, ◌++◌,
  ltb, leb, if◌then◌else◌, length, drop, get_or, is_nil, Result, ok, ◌>>=◌, ◌≡◌, ◌⊎◌, refl, sym, ap,
  ◌∙◌, Bool-cases, true≢false, ltb→lt, inl, inr, arith,
}
use mathlib.Core.Path.{subst}
use c64_https.M3Device.{
  Handshake, st_idle, st_busy, st_last, st_more, code, has_reply, Blocks, Device,
}
use c64_https.M3Device.Sound.{IsSound, Fits}
use c64_https.M3Device.Registers.{
  loaded, load_block, is_due, is_none, serve_abort, advance, bit, status_bits, read_at, read,
  accepted, controlled, write_at, write,
}

-- While bit 7 of $DF1C is set, read a byte from $DF1E.
unfoldable pub drain : ℕ → Device → ℕ → Device × List ℕ
drain zero dev now = (dev, [])
drain (suc fuel) dev now =
    let seen = read dev now 0xDF1C in
    let got = read seen.0 now 0xDF1E in
    let rest : Device × List ℕ = drain fuel got.0 now in
    if leb 0x80 seen.1 then (rest.0, got.1 ∷ rest.1) else (seen.0, [])

-- Bit 5 of $DF1C, the upper bit of the state: a block of a reply is to be read.
abbrev announces : ℕ → Bool
announces status = leb 0x20 (status % 0x40)

-- Read a block, accept it, read $DF1C, and go on if it announces another block; fuel for each block.
unfoldable pub collect : ℕ → Device → ℕ → Result (Device × Blocks)
collect zero dev now = ok (dev, [])
collect (suc fuel) dev now =
    let got = drain (suc (length dev.response)) dev now in
    write got.0 now 0xDF1C 0x02 >>= λ next.
    let seen = read next now 0xDF1C in
    let more = collect fuel seen.0 now in
    if announces seen.1
    then (more >>= λ rest. ok (rest.0, got.1 ∷ rest.1))
    else ok (seen.0, got.1 ∷ [])

-- Nothing is due and no abort waits.
abbrev pub IsCalm : Device → Type 0
IsCalm dev = (dev.done_at ≡ none) × (dev.abort_pending ≡ false) × (dev.present ≡ true)

advance_calm : (dev : Device) (now : ℕ) → IsCalm dev → advance dev now ≡ dev
unfolding advance serve_abort
advance_calm dev now c =
    let idle : is_due dev.done_at now ≡ false = ap (λ d. is_due d now) c.0 in rw (idle, c.1) refl

bit_le : (b : Bool) (n : ℕ) → bit b n ≤ n
bit_le true n = omega arith
bit_le false n = omega arith

bit_cases : (b : Bool) (n : ℕ) → (bit b n ≡ 0) ⊎ (bit b n ≡ n)
bit_cases true n = inr refl
bit_cases false n = inl refl

code_le : (st : Handshake) → code st ≤ 3
unfolding code
code_le st_idle = omega arith
code_le st_busy = omega arith
code_le st_last = omega arith
code_le st_more = omega arith

data_bit :
    (st : Handshake) (x y e a n : Bool)
    → leb 0x80 (code st * 16 + bit x 0x80 + bit y 0x40 + bit e 0x08 + bit a 0x04 + bit n 0x01) ≡ x
data_bit st true y e a n = ground arith
data_bit st false y e a n =
    ground (arith, code_le st, bit_le y 0x40, bit_le e 0x08, bit_le a 0x04, bit_le n 0x01)

state_bits :
    (st : Handshake) (x y e a n : Bool)
    → announces (code st * 16 + bit x 0x80 + bit y 0x40 + bit e 0x08 + bit a 0x04 + bit n 0x01)
      ≡ has_reply st
unfolding code
state_bits st_idle x y e a n =
    ground (arith, bit_le e 0x08, bit_le a 0x04, bit_le n 0x01, bit_cases x 0x80, bit_cases y 0x40)
state_bits st_busy x y e a n =
    ground (arith, bit_le e 0x08, bit_le a 0x04, bit_le n 0x01, bit_cases x 0x80, bit_cases y 0x40)
state_bits st_last x y e a n =
    ground (arith, bit_le e 0x08, bit_le a 0x04, bit_le n 0x01, bit_cases x 0x80, bit_cases y 0x40)
state_bits st_more x y e a n =
    ground (arith, bit_le e 0x08, bit_le a 0x04, bit_le n 0x01, bit_cases x 0x80, bit_cases y 0x40)

drop-suc : (xs : List ℕ) (i : ℕ) → i < length xs → drop i xs ≡ get_or xs i 0 ∷ drop (suc i) xs
drop-suc [] i h = absurd (omega arith)
drop-suc (x ∷ xs) zero h = refl
drop-suc (x ∷ xs) (suc i) h = drop-suc xs i (omega arith)

drop_step : (xs : List ℕ) (i : ℕ) → i < length xs → drop i xs ≡ get_or xs i 0 ∷ drop (i + 1) xs
drop_step xs i h =
    let next : suc i ≡ i + 1 = omega arith in
    drop-suc xs i h ∙ ap (λ n. get_or xs i 0 ∷ drop n xs) next

drop_end : (xs : List ℕ) (i : ℕ) → length xs ≤ i → drop i xs ≡ []
drop_end [] zero h = refl
drop_end [] (suc i) h = refl
drop_end (x ∷ xs) zero h = absurd (omega arith)
drop_end (x ∷ xs) (suc i) h = drop_end xs i (omega arith)

read_status_lem :
    (dev : Device) (now : ℕ) → IsCalm dev → read dev now 0xDF1C ≡ (dev, status_bits dev)
unfolding read read_at
read_status_lem dev now calm =
    ap (λ d. read_at d 0xDF1C) (advance_calm dev now calm)
    ∙ ap (λ p. (dev, if p then status_bits dev else 0xFF)) calm.2

announces-status_bits : (dev : Device) → announces (status_bits dev) ≡ has_reply dev.state
unfolding status_bits
announces-status_bits dev =
    state_bits dev.state (has_reply dev.state && ltb dev.rp (length dev.response))
      (has_reply dev.state && ltb dev.sp (length dev.status)) dev.error_busy dev.abort_pending
      dev.new_command

module _ (dev : Device) (now : ℕ) (calm : IsCalm dev) (replies : has_reply dev.state ≡ true) where
  data_available : leb 0x80 (status_bits dev) ≡ ltb dev.rp (length dev.response)
  unfolding status_bits
  data_available =
      data_bit dev.state (has_reply dev.state && ltb dev.rp (length dev.response))
        (has_reply dev.state && ltb dev.sp (length dev.status)) dev.error_busy dev.abort_pending
        dev.new_command
      ∙ ap (λ t. t && ltb dev.rp (length dev.response)) replies

  read_data_lem :
      dev.rp < length dev.response
      → read dev now 0xDF1E ≡ (record dev { rp = dev.rp + 1 }, get_or dev.response dev.rp 0)
  unfolding read read_at
  read_data_lem l =
      let more : leb (length dev.response) dev.rp ≡ false = ground arith in
      ap (λ d. read_at d 0xDF1E) (advance_calm dev now calm) ∙ (rw (replies, more) refl)

drain_lem :
    (fuel : ℕ) (dev : Device) (now : ℕ)
    → IsCalm dev
    → has_reply dev.state ≡ true
    → dev.rp ≤ length dev.response
    → length dev.response - dev.rp < fuel
    → drain fuel dev now ≡ (record dev { rp = length dev.response }, drop dev.rp dev.response)
unfolding drain
drain_lem zero dev now c r l f = absurd (omega arith)
drain_lem (suc fuel) dev now c r l f =
    let next : Device = record dev { rp = dev.rp + 1 } in
    elim (Bool-cases (ltb dev.rp (length dev.response))) [
      | inl e ↦
          let more : drain fuel next now
              ≡ (record dev { rp = length dev.response }, drop (dev.rp + 1) dev.response) =
            drain_lem fuel next now c r (ground arith) (ground arith) in
          rw
            (
              read_status_lem dev now c,
              data_available dev now c r,
              e,
              read_data_lem dev now c r (ltb→lt dev.rp (length dev.response) e),
              more,
            )
            (ap (λ t. (record dev { rp = length dev.response }, t))
              (sym (drop_step dev.response dev.rp (ltb→lt dev.rp (length dev.response) e))))
      | inr e ↦
          rw (read_status_lem dev now c, data_available dev now c r, e)
            (let end : dev.rp ≡ length dev.response = ground arith in
              ap (λ n. (record dev { rp = n }, [])) end
              ∙ ap (λ t. (record dev { rp = length dev.response }, t))
                  (sym (drop_end dev.response dev.rp (ground arith))))
    ]

-- What the accept of a block that has been read leaves.
abbrev noted : Device → ℕ → Device
noted dev now = record dev {
  rp = length dev.response;
  ctrl_writes = dev.ctrl_writes ++ ((now, 0x02) ∷ []);
}

accept_lem :
    (dev : Device) (now : ℕ)
    → IsCalm dev
    → has_reply dev.state ≡ true
    → write (record dev { rp = length dev.response }) now 0xDF1C 0x02
      ≡ ok (accepted dev.state (noted dev now))
unfolding write write_at controlled
accept_lem dev now c r =
    let read_out : Device = record dev { rp = length dev.response } in
    let none_left : ltb (length dev.response) (length dev.response) ≡ false = ground arith in
    ap (λ d. write_at d now 0xDF1C 0x02) (advance_calm read_out now c)
    ∙ (rw (c.1, r, none_left) refl)

-- What goes with the state of a reply.
abbrev Follows : Handshake → Blocks → Type 0
Follows st [] = st ≡ st_last
Follows st (b ∷ bs) = st ≡ st_more

-- What loading a block sets, and what it leaves.
abbrev IsLoaded : Device → List ℕ → Blocks → Device → Type 0
IsLoaded dev b bs next =
    IsCalm next
    × (next.blocks ≡ bs)
    × Follows next.state bs
    × (next.rp ≡ 0)
    × (next.response ≡ b)
    × (next.violations ≡ dev.violations)
    × (has_reply next.state ≡ true)

loaded-IsLoaded :
    (dev : Device) (b : List ℕ) (bs : Blocks) → IsCalm dev → IsLoaded dev b bs (loaded dev (b ∷ bs))
loaded-IsLoaded dev b [] c = (c, refl, refl, refl, refl, refl, refl)
loaded-IsLoaded dev b (b1 ∷ bs) c = (c, refl, refl, refl, refl, refl, refl)

-- The device after the accept of a block with another behind it.
abbrev ready_next : Device → ℕ → Device
ready_next dev now = record (noted dev now) {
  accepts = dev.accepts + 1;
  accepts_on_more = dev.accepts_on_more + 1;
}

next_lem :
    (dev : Device) (now : ℕ) (bs : Blocks)
    → dev.blocks ≡ bs
    → accepted st_more (noted dev now) ≡ loaded (ready_next dev now) bs
unfolding load_block
next_lem dev now bs b = ap (loaded (ready_next dev now)) b

collect_lem :
    (fuel : ℕ) (dev : Device) (now : ℕ) (bs : Blocks)
    → IsCalm dev
    → dev.blocks ≡ bs
    → Follows dev.state bs
    → dev.rp ≡ 0
    → length bs < fuel
    → (end : Device) × (collect fuel dev now ≡ ok (end, dev.response ∷ bs))
      × (end.state ≡ st_idle)
      × (end.violations ≡ dev.violations)
unfolding collect
collect_lem zero dev now bs c b s p f = absurd (omega arith)
collect_lem (suc fuel) dev now [] c b s p f =
    let replies : has_reply dev.state ≡ true = ap has_reply s in
    let end : Device = accepted st_last (noted dev now) in
    (
      end,
      (rw
          (
            drain_lem (suc (length dev.response)) dev now c replies (omega arith) (omega arith),
            accept_lem dev now c replies,
            s,
            read_status_lem end now c,
            announces-status_bits end,
            p,
          )
          refl),
      refl,
      refl,
    )
collect_lem (suc fuel) dev now (b0 ∷ bs) c b s p f =
    let replies : has_reply dev.state ≡ true = ap has_reply s in
    let next : Device = loaded (ready_next dev now) (b0 ∷ bs) in
    let l = loaded-IsLoaded (ready_next dev now) b0 bs c in
    let rest = collect_lem fuel next now bs l.0 l.1 l.2 l.3 (omega arith) in
    let tail : collect fuel next now ≡ ok (rest.0, b0 ∷ bs) =
      rest.1 ∙ ap (λ t. ok (rest.0, t ∷ bs)) l.4 in
    (
      rest.0,
      (rw
          (
            drain_lem (suc (length dev.response)) dev now c replies (omega arith) (omega arith),
            accept_lem dev now c replies
                ∙ ap ok (ap (λ st. accepted st (noted dev now)) s ∙ next_lem dev now (b0 ∷ bs) b),
            read_status_lem next now l.0,
            announces-status_bits next,
            l.6,
            tail,
            p,
          )
          refl),
      rest.2,
      rest.3 ∙ l.5,
    )

Fits-Follows :
    (st : Handshake) (new : Bool) (bs : Blocks) (response status : List ℕ) (waits due : Bool)
    → has_reply st ≡ true
    → Fits st new bs response status waits due
    → Follows st bs
unfolding is_nil
Fits-Follows st_idle new bs response status waits due r f = absurd (true≢false (sym r))
Fits-Follows st_busy new bs response status waits due r f = absurd (true≢false (sym r))
Fits-Follows st_last new bs response status waits due r f = subst (Follows st_last) (sym f.1) refl
Fits-Follows st_more new [] response status waits due r f = absurd (true≢false f.1)
Fits-Follows st_more new (b ∷ bs) response status waits due r f = refl

-- Where a reply stands ready of which nothing has been read, on a sound device with nothing due: a client that
-- reads each block to its end, accepts it, and goes on while a read of $DF1C announces another, reads the
-- blocks of the reply, in their order and byte by byte, leaves the device idle, and does nothing that the
-- device notes as a violation.
pub collect-blocks :
    (dev : Device) (now : ℕ)
    → IsCalm dev
    → IsSound dev
    → has_reply dev.state ≡ true
    → dev.rp ≡ 0
    → (end : Device) × (collect (suc (length dev.blocks)) dev now
        ≡ ok (end, dev.response ∷ dev.blocks))
      × (end.state ≡ st_idle)
      × (end.violations ≡ dev.violations)
collect-blocks dev now c h r p =
    collect_lem (suc (length dev.blocks)) dev now dev.blocks c refl
      (Fits-Follows dev.state dev.new_command dev.blocks dev.response dev.status
        (is_none dev.pending) (is_none dev.done_at) r h.0)
      p (omega arith)
