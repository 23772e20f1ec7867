-- ===== src/TrustBundle/Canonical.antt =====
-- tools/trust_bundle.py: an accepted blob is the one that its records and its signature give, so that
-- the client, which copies the trailer and hashes the rest, works on what `parse` has read.
use c64_https.Common.{
  ℕ, suc, ◌+◌, ◌-◌, ◌*◌, ◌/◌, ◌%◌, ◌<◌, ◌≡◌, sym, ap, ◌∙◌, List, ◌∷◌, ◌++◌, length, take, drop,
  slice, All, length-take, length-drop, take-append-drop, drop-drop, take_all, All-take, All-drop,
  ok, true, leb, ltb, leb→le, ltb→lt, arith,
}
use mathlib.Core.Path.{ap₂}
use c64_https.Common.Bytes.{IsByte, index, from_le, from_be, to_bytes_be, to_bytes_be-from_be}
use c64_https.TrustStore.Hashlib.{Hash}
use c64_https.TrustStore.Codec.{IsPackable, packed_all}
use c64_https.TrustStore.Accepted.{unpack_all_read}
use c64_https.TrustBundle.{
  Bundle, p256_n, in_range, sorted, unsigned_body, parse, c64_verify_struct,
}
use c64_https.TrustBundle.Sorting.{sorted_id, Ascending-distinct}
use c64_https.TrustBundle.Format.{IsBundle, and_parts, parse_iff}
use c64_https.TrustBundle.Signed.{signed_body, unsigned_body_lem}

records_bytes :
    (blob : List ℕ) (n : ℕ) (b : Bundle)
    → IsBundle blob n b
    → All IsByte blob
    → All IsPackable b.records
      × (length b.records ≡ n)
      × (packed_all b.records ≡ take (n * 64) (drop 8 blob))
records_bytes blob n b f by = unpack_all_read 0 n blob b.records (omega (arith, f.len)) by f.recs_at

signed-eq :
    (blob : List ℕ) (n : ℕ) (b : Bundle)
    → IsBundle blob n b
    → All IsByte blob
    → (b.generation < 65536) × (signed_body b.generation b.records ≡ b.signed)
unfolding index from_le
signed-eq (a0 ∷ a1 ∷ a2 ∷ a3 ∷ v ∷ g0 ∷ g1 ∷ m ∷ t) n b f by =
    let blob = a0 ∷ a1 ∷ a2 ∷ a3 ∷ v ∷ g0 ∷ g1 ∷ m ∷ t in
    let (_, len, bytes) = records_bytes blob n b f by in
    let w : 8 + 64 * n ≡ suc (suc (suc (suc (suc (suc (suc (suc (n * 64)))))))) = omega arith in
    let (_, (_, (_, (_, (_, (b0, (b1, _))))))) = by in
    let e : b.generation ≡ g0 + 256 * (g1 + 256 * 0) = f.gen_at in
    let lo : b.generation % 256 ≡ g0 = omega arith in
    let hi : b.generation / 256 % 256 ≡ g1 = omega arith in
    (
      omega arith,
      ground (arith, bytes, len, lo, hi, f.starts, f.version_at, f.count_at)
          ∙ sym (ap (λ k. take k blob) w)
          ∙ sym f.signed_at,
    )
signed-eq _ n b f by = absurd (omega (arith, f.len))

-- Encoding the generation and the records that `parse` has read from a blob of bytes gives its
-- signed bytes back.
pub unsigned_body-parse :
    (blob : List ℕ) (b : Bundle)
    → All IsByte blob
    → parse blob ≡ ok b
    → unsigned_body b.generation b.records ≡ ok b.signed
unsigned_body-parse blob b by h =
    let (n, f) = (parse_iff blob b).0 h in
    let (packs, len, _) = records_bytes blob n b f by in
    let (small, same) = signed-eq blob n b f by in
    unsigned_body_lem b.generation b.records packs f.leaves
      (Ascending-distinct b.records f.ascending) (omega (arith, len, f.room)) small
    ∙ ap (λ l. ok (signed_body b.generation l)) (sorted_id b.records f.ascending)
    ∙ ap ok same

-- The two halves of the trailer.
trailer_halves :
    (end : ℕ) (blob : List ℕ)
    → length blob ≡ end + 64
    → (slice end (end + 32) blob ++ slice (end + 32) (end + 64) blob ≡ drop end blob)
      × (length (slice end (end + 32) blob) ≡ 32)
      × (length (slice (end + 32) (end + 64) blob) ≡ 32)
trailer_halves end blob len =
    let w : end + 32 - end ≡ 32 = omega arith in
    let w' : end + 64 - (end + 32) ≡ 32 = omega arith in
    (
      ap₂ (λ x y. x ++ y) (ap (λ k. take k (drop end blob)) w)
            (ap (λ k. take k (drop (end + 32) blob)) w'
              ∙ take_all 32 (drop (end + 32) blob) (omega (arith, length-drop (end + 32) blob))
              ∙ sym (drop-drop 32 end blob))
          ∙ take-append-drop 32 (drop end blob),
      length-take (end + 32 - end) (drop end blob) ∙ omega (arith, length-drop end blob),
      length-take (end + 64 - (end + 32)) (drop (end + 32) blob)
          ∙ omega (arith, length-drop (end + 32) blob),
    )

half_bytes :
    (h : List ℕ) (x : ℕ) → All IsByte h → length h ≡ 32 → x ≡ from_be h → to_bytes_be 32 x ≡ ok h
half_bytes h x by len e = rw (e, ← len) (to_bytes_be-from_be h by)

-- On a blob of bytes that parses, with a key of 64 bytes, what the client hands to its verifier is r
-- and s, 32 bytes each, the hash of what `parse` calls the signed bytes, and the key.
pub c64_verify_struct-parse :
    (sha : Hash) (blob xy : List ℕ) (b : Bundle)
    → All IsByte blob
    → length xy ≡ 64
    → parse blob ≡ ok b
    → (rb : List ℕ) × (sb : List ℕ) × (to_bytes_be 32 b.r ≡ ok rb)
      × (to_bytes_be 32 b.s ≡ ok sb)
      × (c64_verify_struct sha blob xy ≡ ok ((rb ++ sb) ++ (sha.digest b.signed ++ xy)))
unfolding c64_verify_struct
c64_verify_struct-parse sha blob xy b by lxy h =
    let (n, f) = (parse_iff blob b).0 h in
    let end = 8 + 64 * n in
    let rb = slice end (end + 32) blob in
    let sb = slice (end + 32) (end + 64) blob in
    let (halves, lr, ls) = trailer_halves end blob f.len in
    let cut : length blob - 64 ≡ end = omega (arith, f.len) in
    (
      rb,
      sb,
      half_bytes rb b.r (All-take IsByte _ _ (All-drop IsByte _ blob by)) lr f.r_at,
      half_bytes sb b.s (All-take IsByte _ _ (All-drop IsByte _ blob by)) ls f.s_at,
      rw (lxy, cut)
          (rw (← f.signed_at) (ap (λ l. ok (l ++ (sha.digest b.signed ++ xy))) (sym halves))),
    )

-- A number that a signature over P-256 may have: not 0, and below the order of the group.
abbrev pub IsScalar : ℕ → Type 0
IsScalar x = (0 < x) × (x < 0xFFFFFFFF00000000FFFFFFFFFFFFFFFFBCE6FAADA7179E84F3B9CAC2FC632551)

in_range-IsScalar : (x : ℕ) → in_range x ≡ true → IsScalar x
in_range-IsScalar x h =
    let (lo, hi) = and_parts (leb 1 x) (ltb x p256_n) h in (leb→le 1 x lo, ltb→lt x p256_n hi)

-- A blob of bytes that parses is, byte for byte, the encoding of what `parse` has read: the body that its
-- generation and its records give, sorted as they are, then r and s as 32 bytes each. Both are from 1 up
-- to below the order of P-256.
pub parse-written :
    (blob : List ℕ) (b : Bundle)
    → All IsByte blob
    → parse blob ≡ ok b
    → (body : List ℕ) × (rb : List ℕ) × (sb : List ℕ) × (unsigned_body b.generation b.records
        ≡ ok body)
      × (sorted b.records ≡ b.records)
      × (to_bytes_be 32 b.r ≡ ok rb)
      × (to_bytes_be 32 b.s ≡ ok sb)
      × (blob ≡ body ++ (rb ++ sb))
      × IsScalar b.r
      × IsScalar b.s
parse-written blob b by h =
    let (n, f) = (parse_iff blob b).0 h in
    let end = 8 + 64 * n in
    let rb = slice end (end + 32) blob in
    let sb = slice (end + 32) (end + 64) blob in
    let (halves, lr, ls) = trailer_halves end blob f.len in
    (
      b.signed,
      rb,
      sb,
      unsigned_body-parse blob b by h,
      sorted_id b.records f.ascending,
      half_bytes rb b.r (All-take IsByte _ _ (All-drop IsByte _ blob by)) lr f.r_at,
      half_bytes sb b.s (All-take IsByte _ _ (All-drop IsByte _ blob by)) ls f.s_at,
      sym (ap₂ (λ x y. x ++ y) f.signed_at halves ∙ take-append-drop end blob),
      in_range-IsScalar b.r f.r_range,
      in_range-IsScalar b.s f.s_range,
    )
