-- ===== src/EvilListener/Keys/Nonces.antt =====
-- tools/https_e2e/evil_listener.py: no nonce of a `TrafficKeys` comes twice.
use Prim.Native.Nat.{bit_xor, bit_xor-bitwise, digits, differ}
use c64_https.Common.{
  ℕ, zero, suc, ◌/◌, ◌%◌, ◌^◌, ◌≤◌, ◌<◌, List, [], ◌∷◌, length, ok, ok-injective, ◌≡◌, ◌≢◌, refl,
  sym, ap, ◌∙◌, arith,
}
use c64_https.Common.Bytes.{from_be, to_bytes_be, to_bytes_be_lem}
use c64_https.EvilListener.Keys.{TrafficKeys, nonce, xor_bytes}

-- `bit_xor` by its lowest digit, and by the fuel of its definition.
abbrev xor_digits : ℕ → ℕ → ℕ → ℕ
xor_digits n a b = digits (λ b. b) differ n a b

xor_digits-fuel : (n m a b : ℕ) → a ≤ n → a ≤ m → xor_digits n a b ≡ xor_digits m a b
xor_digits-fuel zero zero a b p q = refl
xor_digits-fuel zero (suc m) zero b p q = refl
xor_digits-fuel zero (suc m) (suc a) b p q = absurd (omega arith)
xor_digits-fuel (suc n) zero zero b p q = refl
xor_digits-fuel (suc n) zero (suc a) b p q = absurd (omega arith)
xor_digits-fuel (suc n) (suc m) zero b p q = refl
xor_digits-fuel (suc n) (suc m) (suc a) b p q =
    omega (arith, xor_digits-fuel n m (suc a / 2) (b / 2) (omega arith) (omega arith))

differ-injective : (x y z : ℕ) → x < 2 → y < 2 → z < 2 → differ x y ≡ differ x z → y ≡ z
differ-injective zero y z hx hy hz h = h
differ-injective (suc zero) zero zero hx hy hz h = refl
differ-injective (suc zero) zero (suc zero) hx hy hz h = absurd (omega arith)
differ-injective (suc zero) (suc zero) zero hx hy hz h = absurd (omega arith)
differ-injective (suc zero) (suc y) (suc z) hx hy hz h = omega arith
differ-injective (suc (suc x)) y z hx hy hz h = absurd (omega arith)
differ-injective (suc zero) zero (suc (suc z)) hx hy hz h = absurd (omega arith)
differ-injective (suc zero) (suc (suc y)) zero hx hy hz h = absurd (omega arith)

differ_bound : (x y : ℕ) → x < 2 → y < 2 → differ x y < 2
differ_bound zero y hx hy = hy
differ_bound (suc x) zero hx hy = hx
differ_bound (suc zero) (suc zero) hx hy = omega arith
differ_bound (suc zero) (suc (suc y)) hx hy = absurd (omega arith)
differ_bound (suc (suc x)) (suc y) hx hy = absurd (omega arith)

xor_digits-injective : (n a b c : ℕ) → xor_digits n a b ≡ xor_digits n a c → b ≡ c
xor_digits-injective zero a b c h = h
xor_digits-injective (suc n) zero b c h = h
xor_digits-injective (suc n) (suc a) b c h =
    let x : ℕ = suc a % 2 in
    let lb = differ_bound x (b % 2) (omega arith) (omega arith) in
    let lc = differ_bound x (c % 2) (omega arith) (omega arith) in
    let high = xor_digits-injective n (suc a / 2) (b / 2) (c / 2) (omega arith) in
    let low =
      differ-injective x (b % 2) (c % 2) (omega arith) (omega arith) (omega arith) (omega arith) in
    omega arith

pub bit_xor-injective : (a b c : ℕ) → bit_xor a b ≡ bit_xor a c → b ≡ c
bit_xor-injective a b c h =
    xor_digits-injective a a b c (sym (bit_xor-bitwise a b) ∙ h ∙ bit_xor-bitwise a c)

xor_bytes-injective :
    (iv xs ys : List ℕ)
    → length xs ≡ length iv
    → length ys ≡ length iv
    → xor_bytes iv xs ≡ xor_bytes iv ys
    → xs ≡ ys
unfolding xor_bytes
xor_bytes-injective [] [] [] hx hy h = refl
xor_bytes-injective [] (x ∷ xs) ys hx hy h = absurd (omega arith)
xor_bytes-injective [] [] (y ∷ ys) hx hy h = absurd (omega arith)
xor_bytes-injective (k ∷ iv) [] ys hx hy h = absurd (omega arith)
xor_bytes-injective (k ∷ iv) (x ∷ xs) [] hx hy h = absurd (omega arith)
xor_bytes-injective (k ∷ iv) (x ∷ xs) (y ∷ ys) hx hy h =
    let first : x ≡ y = bit_xor-injective k x y cc in
    let others : xs ≡ ys = xor_bytes-injective iv xs ys (omega arith) (omega arith) cc in cc

-- A number that fits has a nonce.
pub nonce_total :
    (keys : TrafficKeys)
    → keys.seq < 256 ^ 12
    → (bs : List ℕ) × (to_bytes_be 12 keys.seq ≡ ok bs)
      × (length bs ≡ 12)
      × (from_be bs ≡ keys.seq)
      × (nonce keys ≡ ok (xor_bytes keys.iv bs))
unfolding nonce
nonce_total keys h = let w = to_bytes_be_lem 12 keys.seq h in (w.0, w.1, w.2, w.4, rw w.1 refl)

-- Under one iv of twelve bytes, two sequence numbers of less than 2 ^ 96 that differ give nonces that differ.
pub nonce-injective :
    (keys others : TrafficKeys)
    → keys.iv ≡ others.iv
    → length keys.iv ≡ 12
    → keys.seq < 256 ^ 12
    → others.seq < 256 ^ 12
    → keys.seq ≢ others.seq
    → nonce keys ≢ nonce others
nonce-injective keys others i l h h' d e =
    let a = nonce_total keys h in
    let b = nonce_total others h' in
    let same : xor_bytes keys.iv a.0 ≡ xor_bytes keys.iv b.0 =
      ok-injective _ _ (sym a.4 ∙ e ∙ b.4) ∙ ap (λ t. xor_bytes t b.0) (sym i) in
    let bytes : a.0 ≡ b.0 = xor_bytes-injective keys.iv a.0 b.0 (a.2 ∙ sym l) (b.2 ∙ sym l) same in
    d (sym a.3 ∙ ap from_be bytes ∙ b.3)
