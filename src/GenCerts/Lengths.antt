-- ===== src/GenCerts/Lengths.antt =====
-- tools/package/listener/gen_certs.py: `tlv` of the reader reads back what the encoder's `_tlv` wrote.
use Prim.Native.Nat.{bit_and, bit_or}
use c64_https.Common.{
  ℕ, zero, suc, ◌+◌, ◌*◌, ◌/◌, ◌^◌, ◌≤◌, ◌<◌, Bool, true, false, ◌&&◌, List, [], ◌∷◌, ◌++◌, length,
  drop, take, slice, take-append_length, ltb, leb, leb→le, ◌==◌, ==_iff, all_below, all_below_lem,
  and_true, drop-append_length, ◌⊎◌, ok, ◌≡◌, refl, ap, ◌∙◌, Bool-cases, inl, inr, arith,
}
use native.Mathlib.Nat.{pow-suc}
use c64_https.Common.Bytes.{index_here, to_bytes_be_lem, from_be}
use c64_https.HardwareChecks.Positions.{drop_more, slice_lem}
use c64_https.GenCerts.{bits_from, bit_length, single, der_len, tlv_at, read_tlv}

-- A number has the bits that bit_length says, and no fewer would do.
pub bits_from_bound : (fuel n : ℕ) → n ≤ fuel → n < 2 ^ bits_from fuel n
unfolding bits_from
bits_from_bound zero n h = omega arith
bits_from_bound (suc fuel) n h = elim (Bool-cases (n == 0)) [
  | inl e ↦ rw (bits_from, e) (ground arith)
  | inr e ↦
      let half : n / 2 ≤ fuel = ground arith in
      let rest = bits_from_bound fuel (n / 2) half in
      rw (bits_from, e, pow-suc 2 (bits_from fuel (n / 2))) (omega arith)
]

pub bits_from-few : (fuel n k : ℕ) → n < 2 ^ k → bits_from fuel n ≤ k
unfolding bits_from
bits_from-few zero n k h = omega arith
bits_from-few (suc fuel) n zero h =
    let e : (n == 0) ≡ true = ground arith in rw (bits_from, e) (omega arith)
bits_from-few (suc fuel) n (suc k) h = elim (Bool-cases (n == 0)) [
  | inl e ↦ rw (bits_from, e) (omega arith)
  | inr e ↦
      let half : n / 2 < 2 ^ k = (let h2 : n < 2 ^ k * 2 = rw (pow-suc 2 k) at h in omega arith) in
      rw (bits_from, e) (omega (arith, bits_from-few fuel (n / 2) k half))
]

-- Up to 32 bits, the bytes that the bits take hold the number.
abbrev is_wide : ℕ → Bool
is_wide b = leb (2 ^ b) (256 ^ ((b + 7) / 8))

width_table : all_below 33 is_wide ≡ true
width_table = refl

abbrev adds : ℕ → Bool
adds w = bit_or 0x80 w == 128 + w

first_table : all_below 5 adds ≡ true
first_table = refl

abbrev is_short : ℕ → Bool
is_short n = bit_and n 0x80 == 0

short_table : all_below 128 is_short ≡ true
short_table = refl

abbrev is_long : ℕ → Bool
is_long w = ltb 0 (bit_and (128 + w) 0x80) && (bit_and (128 + w) 0x7F == w)

long_table : all_below 5 is_long ≡ true
long_table = refl

-- What stands for a length: the number itself below 128, or its width and its bytes.
abbrev pub IsLength : ℕ → List ℕ → Type 0
IsLength n bytes =
    ((n < 128) × (bytes ≡ n ∷ []))
    ⊎ ((w : ℕ) × (body : List ℕ) × (bytes ≡ (128 + w) ∷ body)
        × (length body ≡ w)
        × (w < 5)
        × (from_be body ≡ n))

pub der_len-IsLength :
    (n : ℕ) → n < 2 ^ 32 → (bytes : List ℕ) × (der_len n ≡ ok bytes) × IsLength n bytes
unfolding der_len single
der_len-IsLength n h = elim (Bool-cases (ltb n 0x80)) [
  | inl e ↦ (n ∷ [], rw (der_len, e) refl, inl (ground arith, refl))
  | inr e ↦
      let b : ℕ = bit_length n in
      let w : ℕ = (b + 7) / 8 in
      let few : b ≤ 32 = bits_from-few n n 32 h in
      let wide = leb→le (2 ^ b) (256 ^ w) (all_below_lem 33 is_wide b width_table (omega arith)) in
      let bound : n < 2 ^ b = bits_from_bound n n (omega arith) in
      let fits : n < 256 ^ w = omega arith in
      let (body, made, long, _, back) = to_bytes_be_lem w n fits in
      let narrow : w < 5 = omega arith in
      let first : bit_or 0x80 w ≡ 128 + w =
        (==_iff (bit_or 0x80 w) (128 + w)).0 (all_below_lem 5 adds w first_table narrow) in
      let byte : ltb (128 + w) 256 ≡ true = ground arith in
      (
        (128 + w) ∷ body,
        rw (der_len, e, made, long, first, byte) refl,
        inr (w, body, refl, long, narrow, back),
      )
]

module _ (buf : List ℕ) (off tag n : ℕ) (bytes rest : List ℕ)
    (at : drop off buf ≡ (tag ∷ bytes) ++ rest) where
  pub read_tlv-short :
      n < 128
      → bytes ≡ n ∷ []
      → (read_tlv buf off ≡ ok (tlv_at tag (off + 2) n)) × (drop (off + 2) buf ≡ rest)
  unfolding read_tlv
  read_tlv-short h e =
      let at' : drop off buf ≡ tag ∷ n ∷ rest = at ∙ ap (λ t. (tag ∷ t) ++ rest) e in
      let low : (bit_and n 0x80 == 0) ≡ true = all_below_lem 128 is_short n short_table h in
      (
        rw
            (
              index_here buf off tag (n ∷ rest) at',
              index_here buf (off + 1) n rest (drop_more buf off (tag ∷ n ∷ rest) at' 1),
              low,
            )
            refl,
        drop_more buf off (tag ∷ n ∷ rest) at' 2,
      )

  pub read_tlv-long :
      (w : ℕ) (body : List ℕ)
      → bytes ≡ (128 + w) ∷ body
      → length body ≡ w
      → w < 5
      → from_be body ≡ n
      → (read_tlv buf off ≡ ok (tlv_at tag (off + 2 + w) n)) × (drop (off + 2 + w) buf ≡ rest)
  unfolding read_tlv
  read_tlv-long w body e l h b =
      let at' : drop off buf ≡ tag ∷ (128 + w) ∷ (body ++ rest) =
        at ∙ ap (λ t. (tag ∷ t) ++ rest) e in
      let two' =
        and_true (ltb 0 (bit_and (128 + w) 0x80)) _ (all_below_lem 5 is_long w long_table h) in
      let high : (bit_and (128 + w) 0x80 == 0) ≡ false = ground (arith, two'.0) in
      let count : bit_and (128 + w) 0x7F ≡ w = (==_iff (bit_and (128 + w) 0x7F) w).0 two'.1 in
      let there : drop (off + 2) buf ≡ body ++ rest =
        drop_more buf off (tag ∷ (128 + w) ∷ (body ++ rest)) at' 2 in
      let value : from_be (slice (off + 2) (off + 2 + w) buf) ≡ n =
        ap from_be
          (slice_lem (off + 2) w buf ∙ ap (take w) there ∙ take-append_length w body rest l)
        ∙ b in
      (
        rw
            (
              index_here buf off tag ((128 + w) ∷ (body ++ rest)) at',
              index_here buf (off + 1) (128 + w) (body ++ rest)
                  (drop_more buf off (tag ∷ (128 + w) ∷ (body ++ rest)) at' 1),
              high,
              count,
              value,
            )
            refl,
        drop_more buf (off + 2) (body ++ rest) there w ∙ drop-append_length w body rest l,
      )
