-- ===== src/TrustBundle/Signed.antt =====
-- tools/trust_bundle.py: `sign` and `verify`. What is signed verifies, what verifies is no older than
-- the floor, and the client's view of a blob is that of `parse`.
use c64_https.Common.{
  ℕ, suc, ◌+◌, ◌-◌, ◌*◌, ◌/◌, ◌%◌, ◌≤◌, ◌<◌, ◌≡◌, refl, sym, ap, ◌∙◌, true, Option, none, some,
  List, [], ◌∷◌, ◌++◌, map, length, take, drop, All, length-append, take-append_length,
  drop-append_length, drop-append_add, take_all, Bool-cases, inl, inr, ok, arith,
}
use c64_https.Common.Bytes.{index, le_bytes, from_le, from_be}
use c64_https.TrustStore.{Record, of_record}
use c64_https.TrustStore.Codec.{
  IsPackable, stored, packed_all, pack_all_lem, length-packed_all, unpack_all-packed_all,
}
use c64_https.TrustBundle.{
  bytes_lt, insert, sorted, all_distinct, pack_header, unsigned_body, in_range,
}
use c64_https.TrustBundle.Sorting.{Ascending, distinct-sorted}
use c64_https.TrustBundle.Format.{IsLeaf, IsBundle, check_all_lem}

insert-All {κ} :
    (P : Record → Type κ) (r : Record) (rs : List Record) → P r → All P rs → All P (insert r rs)
unfolding insert
insert-All P r [] h hs = (h, tt)
insert-All P r (x ∷ xs) h hs = elim (Bool-cases (bytes_lt x.key r.key)) [
  | inl t ↦ rw t (hs.0, insert-All P r xs h hs.1)
  | inr t ↦ rw t (h, hs)
]

pub sorted-All {κ} : (P : Record → Type κ) (rs : List Record) → All P rs → All P (sorted rs)
unfolding sorted
sorted-All P [] h = tt
sorted-All P (r ∷ rs) h = insert-All P r (sorted rs) h.0 (sorted-All P rs h.1)

length-insert : (r : Record) (rs : List Record) → length (insert r rs) ≡ suc (length rs)
unfolding insert
length-insert r [] = refl
length-insert r (x ∷ xs) = ground (arith, length-insert r xs)

pub length-sorted : (rs : List Record) → length (sorted rs) ≡ length rs
unfolding sorted
length-sorted [] = refl
length-sorted (r ∷ rs) = length-insert r (sorted rs) ∙ ap suc (length-sorted rs)

stored-Ascending :
    (p : Option (List ℕ)) (rs : List Record) → Ascending p rs → Ascending p (map stored rs)
stored-Ascending p [] h = tt
stored-Ascending none (r ∷ rs) h = stored-Ascending (some r.key) rs h
stored-Ascending (some k) (r ∷ rs) h = (h.0, stored-Ascending (some r.key) rs h.1)

stored-IsLeaf : (rs : List Record) → All IsLeaf rs → All IsLeaf (map stored rs)
stored-IsLeaf [] h = tt
stored-IsLeaf (r ∷ rs) h = (
  record { leaf = h.0.leaf; warn_only = h.0.warn_only; unused = h.0.unused },
  stored-IsLeaf rs h.1,
)

-- The bytes that are signed, for records in order.
abbrev pub signed_body : ℕ → List Record → List ℕ
signed_body gen recs =
    0x43 ∷ 0x36 ∷ 0x54 ∷ 0x42 ∷ 1 ∷ (gen % 256) ∷ (gen / 256 % 256) ∷ length recs ∷ packed_all recs

length-map : (recs : List Record) → length (map of_record recs) ≡ length recs
length-map [] = refl
length-map (r ∷ rs) = ap suc (length-map rs)

pub unsigned_body_lem :
    (gen : ℕ) (recs : List Record)
    → All IsPackable recs
    → All IsLeaf recs
    → all_distinct recs ≡ true
    → length recs ≤ 32
    → gen < 65536
    → unsigned_body gen recs ≡ ok (signed_body gen (sorted recs))
unfolding unsigned_body pack_header le_bytes
unsigned_body_lem gen recs packs leaves apart room small =
    rw
      (
        distinct-sorted recs ∙ apart,
        check_all_lem (sorted recs) (sorted-All IsLeaf recs leaves),
        pack_all_lem (sorted recs) (sorted-All IsPackable recs packs),
      )
      (ground (arith, length-sorted recs))

length-signed_body :
    (gen : ℕ) (recs : List Record)
    → All IsPackable recs
    → length (signed_body gen recs) ≡ 8 + 64 * length recs
length-signed_body gen recs h = omega (arith, length-packed_all recs h)

pub signed-IsBundle :
    (gen : ℕ) (recs : List Record) (r s : ℕ) (rb sb : List ℕ)
    → All IsPackable recs
    → All IsLeaf recs
    → Ascending none recs
    → length recs ≤ 32
    → gen < 65536
    → in_range r ≡ true
    → in_range s ≡ true
    → (length rb ≡ 32) × (from_be rb ≡ r)
    → (length sb ≡ 32) × (from_be sb ≡ s)
    → IsBundle (signed_body gen recs ++ (rb ++ sb)) (length recs) (record {
      generation = gen;
      records = map stored recs;
      r = r;
      s = s;
      signed = signed_body gen recs;
    })
unfolding index from_le
signed-IsBundle gen recs r s rb sb packs leaves asc room small hr hs (lr, er) (ls, es) =
    let body = signed_body gen recs in
    let blob = body ++ (rb ++ sb) in
    let n = length recs in
    let width : length body ≡ 8 + 64 * n = length-signed_body gen recs packs in
    let w32 : 8 + 64 * n + 32 - (8 + 64 * n) ≡ 32 = omega arith in
    let w32' : 8 + 64 * n + 64 - (8 + 64 * n + 32) ≡ 32 = omega arith in
    record {
      room = room;
      len = length-append body (rb ++ sb) ∙ omega (arith, width, length-append rb sb, lr, ls);
      starts = refl;
      version_at = refl;
      count_at = refl;
      gen_at = omega arith;
      recs_at = unpack_all-packed_all recs 0 blob (rb ++ sb) packs refl;
      ascending = stored-Ascending none recs asc;
      leaves = stored-IsLeaf recs leaves;
      r_at =
          sym er
          ∙ ap from_be (
              sym (
                ap (λ k. take k (drop (8 + 64 * n) blob)) w32
                ∙ ap (take 32) (drop-append_length (8 + 64 * n) body (rb ++ sb) width)
                ∙ take-append_length 32 rb sb lr));
      s_at =
          sym es
          ∙ ap from_be (
              sym (
                ap (λ k. take k (drop (8 + 64 * n + 32) blob)) w32'
                ∙ ap (take 32) (
                    drop-append_add (8 + 64 * n) 32 body (rb ++ sb) width
                    ∙ drop-append_length 32 rb sb lr)
                ∙ take_all 32 sb (omega arith)));
      r_range = hr;
      s_range = hs;
      signed_at = sym (take-append_length (8 + 64 * n) body (rb ++ sb) width);
    }
