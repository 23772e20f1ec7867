-- ===== src/Reu/Transfer.antt =====
-- tools/_reu_model.py: what a transfer moves, and that a fetch brings back what a stash took.
use c64_https.Common.{
  ℕ, zero, suc, ◌+◌, ◌-◌, ◌*◌, ◌%◌, ◌≤◌, ◌<◌, ◌≡◌, ◌≢◌, refl, sym, ap, ◌∙◌, ◌⊎◌, inl, inr, false,
  ◌==◌, Bool-cases, ok, arith,
}
use Prim.Native.Nat.{bit_and}
use native.Mathlib.Decide.{dec_lt}
use native.Mathlib.Nat.{mod-lt, mod-eq_of_lt, mod-eq-sub-mod, mod-add-mod}
use c64_https.Reu.{Reu, Memory, store, copied, autoload, word_at, or_64k, stashed, fetched, execute}

-- A sum of two numbers below `t`, modulo `t`.
wrap_cases :
    (t r i : ℕ)
    → r < t
    → i < t
    → ((r + i < t) × ((r + i) % t ≡ r + i)) ⊎ ((t ≤ r + i) × ((r + i) % t ≡ r + i - t))
wrap_cases t r i hr hi = elim (dec_lt (r + i) t) [
  | yes h ↦ inl (h, mod-eq_of_lt h)
  | no h ↦ inr (omega arith, mod-eq-sub-mod (omega arith) ∙ mod-eq_of_lt (omega arith))
]

-- Different steps of less than `t` from one place meet different places of a memory of size `t`.
wrap-injective : (t to i j : ℕ) → i < t → j < t → (to + i) % t ≡ (to + j) % t → i ≡ j
wrap-injective t to i j hi hj e =
    let r : to % t < t = mod-lt to (omega arith) in
    let ei = mod-add-mod to t i in
    let ej = mod-add-mod to t j in
    elim (wrap_cases t (to % t) i r hi) [
      | inl (a, ea) ↦ elim (wrap_cases t (to % t) j r hj) [
        | inl (b, eb) ↦ omega arith
        | inr (b, eb) ↦ omega arith
      ]
      | inr (a, ea) ↦ elim (wrap_cases t (to % t) j r hj) [
        | inl (b, eb) ↦ omega arith
        | inr (b, eb) ↦ omega arith
      ]
    ]

store_same : (m : Memory) (at byte : ℕ) → store m at byte at ≡ byte
store_same m at byte = ground arith

store_other : (m : Memory) (at byte x : ℕ) → x ≢ at → store m at byte x ≡ m x
store_other m at byte x h = ground arith

-- A transfer changes no place that none of its steps meets.
copied_other :
    (k i : ℕ) (source : Memory) (from s : ℕ) (target : Memory) (to t x : ℕ)
    → ((j : ℕ) → i ≤ j → j < i + k → x ≢ (to + j) % t)
    → copied k i source from s target to t x ≡ target x
unfolding copied
copied_other zero i source from s target to t x h = refl
copied_other (suc k) i source from s target to t x h =
    copied_other k (i + 1) source from s _ to t x (λ j lo hi. h j (omega arith) (omega arith))
    ∙ store_other target ((to + i) % t) _ x (h i (omega arith) (omega arith))

-- At a place that one of its steps meets, the target holds the byte that the step took.
copied_step :
    (k i j : ℕ) (source : Memory) (from s : ℕ) (target : Memory) (to t : ℕ)
    → i ≤ j
    → j < i + k
    → i + k ≤ t
    → copied k i source from s target to t ((to + j) % t) ≡ source ((from + j) % s)
unfolding copied
copied_step zero i j source from s target to t lo hi fit = absurd (omega arith)
copied_step (suc k) i j source from s target to t lo hi fit = elim (dec_lt i j) [
  | yes h ↦ copied_step k (i + 1) j source from s _ to t (omega arith) (omega arith) (omega arith)
  | no h ↦
      let e : j ≡ i = omega arith in
      rw e (
        copied_other k (i + 1) source from s _ to t ((to + i) % t) (λ m lo' hi' q.
          absurd (omega (arith, wrap-injective t to i m (omega arith) (omega arith) q)))
        ∙ store_same target ((to + i) % t) (source ((from + i) % s)))
]

differ : (a b : ℕ) → (a == b) ≡ false → a ≢ b
differ a b e h = ground arith

is_false : (a b : ℕ) → a ≢ b → (a == b) ≡ false
is_false a b h = ground arith

-- Either one of the first `n` steps meets the place, or none does.
met :
    (n to t x : ℕ) → ((j : ℕ) × (j < n) × (x ≡ (to + j) % t)) ⊎ ((j : ℕ) → j < n → x ≢ (to + j) % t)
met zero to t x = inr (λ j h e. omega arith)
met (suc n) to t x = elim (met n to t x) [
  | inl (j, h, e) ↦ inl (j, omega arith, e)
  | inr none_met ↦ elim (Bool-cases (x == (to + n) % t)) [
    | inl e ↦ inl (n, omega arith, ground arith)
    | inr e ↦ inr (λ j h q. elim (dec_lt j n) [
      | yes lt ↦ none_met j lt q
      | no ge ↦ differ x ((to + n) % t) e (q ∙ ap (λ i. (to + i) % t) (omega arith))
    ])
  ]
]

-- Copying a window out and back leaves the memory that it came from as it was, where the window is no
-- larger than either memory.
copied_back :
    (n : ℕ) (ram mem : Memory) (c64 reu size x : ℕ)
    → n ≤ size
    → n ≤ 65536
    → copied n 0 (copied n 0 ram c64 65536 mem reu size) reu size ram c64 65536 x ≡ ram x
copied_back n ram mem c64 reu size x fit fit' = elim (met n c64 65536 x) [
  | inl (j, h, e) ↦
      ap (copied n 0 (copied n 0 ram c64 65536 mem reu size) reu size ram c64 65536) e
      ∙ (copied_step n 0 j _ reu size ram c64 65536 (omega arith) (omega arith) (omega arith)
          ∙ (copied_step n 0 j ram c64 65536 mem reu size (omega arith) (omega arith) (omega arith)
              ∙ ap ram (sym e)))
  | inr apart ↦ copied_other n 0 _ reu size ram c64 65536 x (λ j lo hi. apart j (omega arith))
]

-- A command that starts a transfer at once, of type `op`.
abbrev pub IsCommand : ℕ → ℕ → Type 0
IsCommand cmd op = (bit_and cmd 0x10 ≢ 0) × (bit_and cmd 3 ≡ op)

-- The registers that the transfer reads are bytes, and the addresses are not fixed.
pub record IsReady (u : Reu) : Type 0 where
  pub low : u.regs 7 < 256
  pub high : u.regs 8 < 256
  pub counting : u.regs 10 ≡ 0
  pub some_room : u.size ≢ 0

pub execute_stash :
    (u : Reu) (cmd : ℕ)
    → IsCommand cmd 0
    → IsReady u
    → execute u cmd ≡ (
      stashed cmd u
          (word_at u.regs 2)
          ((word_at u.regs 4 + 65536 * u.regs 6) % u.size)
          (or_64k (word_at u.regs 7)),
      ok tt,
    )
unfolding execute
execute_stash u cmd c h =
    rw (is_false (bit_and cmd 0x10) 0 c.0, h.counting, is_false u.size 0 h.some_room, c.1) refl

pub execute_fetch :
    (u : Reu) (cmd : ℕ)
    → IsCommand cmd 1
    → IsReady u
    → execute u cmd ≡ (
      fetched cmd u
          (word_at u.regs 2)
          ((word_at u.regs 4 + 65536 * u.regs 6) % u.size)
          (or_64k (word_at u.regs 7)),
      ok tt,
    )
unfolding execute
execute_fetch u cmd c h =
    rw (is_false (bit_and cmd 0x10) 0 c.0, h.counting, is_false u.size 0 h.some_room, c.1) refl

autoload_same : (cmd : ℕ) (regs : Memory) (a : ℕ) → autoload cmd regs regs a ≡ regs a
autoload_same cmd regs a = ground arith

word_same : (cmd : ℕ) (regs : Memory) (a : ℕ) → word_at (autoload cmd regs regs) a ≡ word_at regs a
word_same cmd regs a = omega (arith, autoload_same cmd regs a, autoload_same cmd regs (a + 1))

or_64k_bound : (lo hi : ℕ) → lo < 256 → hi < 256 → or_64k (lo + 256 * hi) ≤ 65536
or_64k_bound lo hi h h' = ground arith

-- A stash, and a fetch of the same window, for which nothing but the command is written, leave the
-- memory of the machine as it was. The length is in range, 0 standing for 65,536, and no larger than the
-- unit.
pub fetch_back :
    (u : Reu) (out back x : ℕ)
    → IsCommand out 0
    → IsCommand back 1
    → IsReady u
    → or_64k (word_at u.regs 7) ≤ u.size
    → (execute (execute u out).0 back).0.ram x ≡ u.ram x
unfolding stashed fetched
fetch_back u out back x co cb h fit =
    let n = or_64k (word_at u.regs 7) in
    let c64 = word_at u.regs 2 in
    let reu = (word_at u.regs 4 + 65536 * u.regs 6) % u.size in
    let v = stashed out u c64 reu n in
    let w = word_same out u.regs in
    let a = autoload_same out u.regs in
    let ready : IsReady v = record {
      low = omega (arith, a 7, h.low);
      high = omega (arith, a 8, h.high);
      counting = a 10 ∙ h.counting;
      some_room = h.some_room;
    } in
    ap (λ p. (execute p.0 back).0.ram x) (execute_stash u out co h)
    ∙ (ap (λ p. p.0.ram x) (execute_fetch v back cb ready)
        ∙ (rw (w 2, w 4, w 7, a 6)
            (copied_back n u.ram u.mem c64 reu u.size x fit
              (or_64k_bound (u.regs 7) (u.regs 8) h.low h.high))))

-- After a stash the window of the unit holds the bytes of the window of the machine, at addresses that
-- wrap at the size of each, and no other place of the unit has changed.
pub stash_window :
    (u : Reu) (cmd j x : ℕ)
    → IsCommand cmd 0
    → IsReady u
    → or_64k (word_at u.regs 7) ≤ u.size
    → j < or_64k (word_at u.regs 7)
    → ((i : ℕ)
        → i < or_64k (word_at u.regs 7)
        → x ≢ ((word_at u.regs 4 + 65536 * u.regs 6) % u.size + i) % u.size)
    → ((execute u cmd).0.mem (((word_at u.regs 4 + 65536 * u.regs 6) % u.size + j) % u.size)
        ≡ u.ram ((word_at u.regs 2 + j) % 65536))
      × ((execute u cmd).0.mem x ≡ u.mem x)
unfolding stashed
stash_window u cmd j x c h fit hj apart =
    let n = or_64k (word_at u.regs 7) in
    let reu = (word_at u.regs 4 + 65536 * u.regs 6) % u.size in
    let e = execute_stash u cmd c h in
    (
      ap (λ p. p.0.mem ((reu + j) % u.size)) e
          ∙ copied_step n 0 j u.ram (word_at u.regs 2) 65536 u.mem reu u.size (omega arith)
              (omega arith) (omega arith),
      ap (λ p. p.0.mem x) e
          ∙ copied_other n 0 u.ram (word_at u.regs 2) 65536 u.mem reu u.size x
              (λ i lo hi. apart i (omega arith)),
    )
