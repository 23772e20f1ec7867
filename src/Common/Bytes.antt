-- ===== src/Common/Bytes.antt =====
-- Fixed-width integers as byte strings: `int.to_bytes`, `int.from_bytes`, `struct`'s "<H".
use Prim.Native.Nat.{ℕ, zero, suc, ◌+◌, ◌*◌, ◌/◌, ◌%◌, ◌^◌, ◌<◌}
use mathlib.Core.Path.{◌≡◌, refl, ap, ◌∙◌}
use mathlib.Core.List.{List, [], ◌∷◌, ◌++◌, reverse, reverse-reverse, reverse-cons}
use native.Mathlib.Nat.{pow-suc}
use mathlib.Core.Option.{none, some}
use native.Mathlib.Omega.{arith}
use c64_https.Common.Tests.{ltb, if◌then◌else◌}
use c64_https.Common.Lists.{
  drop, length, length-append, get_elem?, get_elem?-append_lt, All, All-append,
}
use c64_https.Common.Faults.{Result, ok, raised, index_error, struct_error, overflow_error}

abbrev pub IsByte : ℕ → Type 0
IsByte b = b < 256

-- xs[i]
unfoldable pub index : List ℕ → ℕ → Result ℕ
index xs i = elim (get_elem? xs i) [ some b ↦ ok b | none ↦ raised index_error ]

-- n.to_bytes(w, "little") of a number that fits, and int.from_bytes(bs, "little")
unfoldable pub le_bytes : ℕ → ℕ → List ℕ
le_bytes zero n = []
le_bytes (suc w) n = (n % 256) ∷ le_bytes w (n / 256)

unfoldable pub from_le : List ℕ → ℕ
from_le [] = 0
from_le (b ∷ bs) = b + 256 * from_le bs

-- n.to_bytes(w, "big") raises OverflowError where the number does not fit
unfoldable pub to_bytes_be : ℕ → ℕ → Result (List ℕ)
to_bytes_be w n = if ltb n (256 ^ w) then ok (reverse (le_bytes w n)) else raised overflow_error

unfoldable pub from_be : List ℕ → ℕ
from_be bs = from_le (reverse bs)

-- struct.pack("<H", n), which raises struct.error where the number does not fit
unfoldable pub pack_u16 : ℕ → Result (List ℕ)
pack_u16 n = if ltb n 65536 then ok ((n % 256) ∷ (n / 256) ∷ []) else raised struct_error

-- struct.unpack_from("<H", buf, off), given buf[off:]
unfoldable pub unpack_u16 : List ℕ → Result ℕ
unpack_u16 (a ∷ b ∷ rest) = ok (a + 256 * b)
unpack_u16 _ = raised struct_error

pub length-le_bytes : (w n : ℕ) → length (le_bytes w n) ≡ w
unfolding le_bytes
length-le_bytes zero n = refl
length-le_bytes (suc w) n = ap suc (length-le_bytes w (n / 256))

pub le_bytes-IsByte : (w n : ℕ) → All IsByte (le_bytes w n)
unfolding le_bytes
le_bytes-IsByte zero n = tt
le_bytes-IsByte (suc w) n = (omega arith, le_bytes-IsByte w (n / 256))

div-lt-pow : (w n : ℕ) → n < 256 ^ suc w → n / 256 < 256 ^ w
div-lt-pow w n h = let e : n < 256 ^ w * 256 = rw (pow-suc 256 w) at h in omega arith

pub from_le-le_bytes : (w n : ℕ) → n < 256 ^ w → from_le (le_bytes w n) ≡ n
unfolding le_bytes from_le
from_le-le_bytes zero n h = omega arith
from_le-le_bytes (suc w) n h = omega (arith, from_le-le_bytes w (n / 256) (div-lt-pow w n h))

low_byte : (b t : ℕ) → b < 256 → (b + 256 * t) % 256 ≡ b
low_byte b t h = omega arith

high_bytes : (b t : ℕ) → b < 256 → (b + 256 * t) / 256 ≡ t
high_bytes b t h = omega arith

pub le_bytes-from_le : (bs : List ℕ) → All IsByte bs → le_bytes (length bs) (from_le bs) ≡ bs
unfolding le_bytes from_le
le_bytes-from_le [] h = refl
le_bytes-from_le (b ∷ bs) h =
    rw (low_byte b (from_le bs) h.0, high_bytes b (from_le bs) h.0)
      (ap (λ l. b ∷ l) (le_bytes-from_le bs h.1))

pub from_le_bound : (bs : List ℕ) → All IsByte bs → from_le bs < 256 ^ length bs
unfolding from_le
from_le_bound [] h = omega arith
from_le_bound (b ∷ bs) h = rw (pow-suc 256 (length bs)) (omega (arith, from_le_bound bs h.1, h.0))

module _ {ℓ} {A : Type ℓ} where
  pub length-reverse : (xs : List A) → length (reverse xs) ≡ length xs
  length-reverse [] = refl
  length-reverse (x ∷ xs) =
      ap length (reverse-cons x xs)
      ∙ length-append (reverse xs) (x ∷ [])
      ∙ omega (arith, length-reverse xs)

  pub All-reverse {κ} : (P : A → Type κ) (xs : List A) → All P xs → All P (reverse xs)
  All-reverse P [] h = tt
  All-reverse P (x ∷ xs) h =
      rw (reverse-cons x xs) (All-append P (reverse xs) (x ∷ []) (All-reverse P xs h.1) (h.0, tt))

-- What `to_bytes` writes has the width, and `from_bytes` reads it back.
pub to_bytes_be_lem :
    (w n : ℕ)
    → n < 256 ^ w
    → (bs : List ℕ) × (to_bytes_be w n ≡ ok bs) × (length bs ≡ w) × All IsByte bs × (from_be bs ≡ n)
unfolding to_bytes_be from_be
to_bytes_be_lem w n h = (
  reverse (le_bytes w n),
  ground arith,
  length-reverse (le_bytes w n) ∙ length-le_bytes w n,
  All-reverse IsByte (le_bytes w n) (le_bytes-IsByte w n),
  ap from_le (reverse-reverse (le_bytes w n)) ∙ from_le-le_bytes w n h,
)

-- A byte string of the width is what `to_bytes` writes for its value.
pub to_bytes_be-from_be :
    (bs : List ℕ) → All IsByte bs → to_bytes_be (length bs) (from_be bs) ≡ ok bs
unfolding to_bytes_be from_be
to_bytes_be-from_be bs h =
    let back : All IsByte (reverse bs) = All-reverse IsByte bs h in
    let same : le_bytes (length bs) (from_le (reverse bs)) ≡ reverse bs =
      rw (length-reverse bs) at (le_bytes-from_le (reverse bs) back) in
    let small : from_le (reverse bs) < 256 ^ length bs =
      rw (length-reverse bs) at (from_le_bound (reverse bs) back) in
    rw same (ground (arith, reverse-reverse bs))

-- An index within the bytes, and the number it finds.
pub index_lem :
    (xs : List ℕ) (i : ℕ)
    → i < length xs
    → All IsByte xs
    → (b : ℕ) × (index xs i ≡ ok b) × (b < 256)
unfolding index
index_lem [] i h a = absurd (omega arith)
index_lem (x ∷ xs) zero h a = (x, refl, a.0)
index_lem (x ∷ xs) (suc i) h a = index_lem xs i (omega arith) a.1

pub index_total : (xs : List ℕ) (i : ℕ) → i < length xs → (b : ℕ) × (index xs i ≡ ok b)
unfolding index
index_total [] i h = absurd (omega arith)
index_total (x ∷ xs) zero h = (x, refl)
index_total (x ∷ xs) (suc i) h = index_total xs i (omega arith)

pub index-append_lt : (i : ℕ) (xs ys : List ℕ) → i < length xs → index (xs ++ ys) i ≡ index xs i
unfolding index
index-append_lt i xs ys h = rw (get_elem?-append_lt i xs ys h, index)

index-drop : (off : ℕ) (bs : List ℕ) → index bs off ≡ index (drop off bs) 0
unfolding index
index-drop zero [] = refl
index-drop zero (b ∷ bs) = refl
index-drop (suc off) [] = refl
index-drop (suc off) (b ∷ bs) = index-drop off bs

pub index_here :
    (bs : List ℕ) (off b : ℕ) (more : List ℕ) → drop off bs ≡ b ∷ more → index bs off ≡ ok b
unfolding index
index_here bs off b more at = index-drop off bs ∙ ap (λ t. index t 0) at
