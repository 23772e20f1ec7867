-- ===== src/HardwareChecks/Positions.antt =====
-- tools/ip65_hw_checks.py: what the parsers of names read at an offset, by what stands behind it.
use c64_https.Common.{
  ℕ, zero, suc, ◌+◌, ◌-◌, ◌≤◌, List, [], ◌∷◌, ◌++◌, length, length-drop, take, drop, drop-drop,
  slice, take-append_le, ◌≡◌, refl, sym, ap, ◌∙◌, arith,
}
use mathlib.Core.Path.{subst}
use c64_https.Common.Bytes.{from_be}
use c64_https.HardwareChecks.Capture.{be_at, byte_at}

byte_at-drop : (off : ℕ) (xs : List ℕ) → byte_at off xs ≡ byte_at 0 (drop off xs)
byte_at-drop zero [] = refl
byte_at-drop zero (x ∷ xs) = refl
byte_at-drop (suc off) [] = refl
byte_at-drop (suc off) (x ∷ xs) = byte_at-drop off xs

pub slice_lem : (a w : ℕ) (xs : List ℕ) → slice a (a + w) xs ≡ take w (drop a xs)
slice_lem a w xs = ap (λ t. take t (drop a xs)) (omega arith)

module _ (xs : List ℕ) (off : ℕ) (ys : List ℕ) (at : drop off xs ≡ ys) where
  pub byte_here : byte_at off xs ≡ byte_at 0 ys
  byte_here = byte_at-drop off xs ∙ ap (byte_at 0) at

  pub drop_more : (n : ℕ) → drop (off + n) xs ≡ drop n ys
  drop_more n = sym (drop-drop n off xs) ∙ ap (drop n) at

  pub slice_here : (n w : ℕ) → slice (off + n) (off + n + w) xs ≡ take w (drop n ys)
  slice_here n w = slice_lem (off + n) w xs ∙ ap (take w) (drop_more n)

  pub be_here : (n w : ℕ) → be_at (off + n) w xs ≡ be_at n w ys
  be_here n w = ap from_be (slice_here n w ∙ sym (slice_lem n w ys))

  pub be_first : (w : ℕ) → be_at off w xs ≡ be_at 0 w ys
  be_first w = subst (λ t. be_at t w xs ≡ be_at 0 w ys) (omega arith) (be_here 0 w)

  pub length_here : length ys ≡ length xs - off
  length_here = ap length (sym at) ∙ length-drop off xs

pub drop-append_le : (n : ℕ) (xs ys : List ℕ) → n ≤ length xs → drop n (xs ++ ys) ≡ drop n xs ++ ys
drop-append_le zero xs ys h = refl
drop-append_le (suc n) [] ys h = absurd (omega arith)
drop-append_le (suc n) (x ∷ xs) ys h = drop-append_le n xs ys (omega arith)

pub slice-append_le :
    (n w : ℕ) (xs ys : List ℕ) → n + w ≤ length xs → slice n (n + w) (xs ++ ys) ≡ slice n (n + w) xs
slice-append_le n w xs ys h =
    slice_lem n w (xs ++ ys)
    ∙ ap (take w) (drop-append_le n xs ys (omega arith))
    ∙ take-append_le w (drop n xs) ys (ground (arith, length-drop n xs))
    ∙ sym (slice_lem n w xs)

pub be_at-append :
    (n w : ℕ) (xs ys : List ℕ) → n + w ≤ length xs → be_at n w (xs ++ ys) ≡ be_at n w xs
be_at-append n w xs ys h = ap from_be (slice-append_le n w xs ys h)
