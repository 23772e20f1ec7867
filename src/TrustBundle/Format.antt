-- ===== src/TrustBundle/Format.antt =====
-- tools/trust_bundle.py: `parse`, and which byte strings it accepts.
use c64_https.Common.{
  ◌↔◌, ℕ, ◌+◌, ◌*◌, ◌≤◌, ◌≡◌, refl, sym, ap, ◌∙◌, Bool, true, ◌&&◌, Option, none, some, List, [],
  ◌∷◌, length, take, slice, All, leb, ◌==◌, leb→le, ==_iff, list_eq, list_eq→eq, eq→list_eq, Result,
  ok, >>=-eq-ok, guard-eq-ok, ok-injective, arith,
}
use mathlib.Core.Path.{subst}
use c64_https.Common.Bytes.{index, from_le, from_be}
use c64_https.TrustStore.{Record, unpack_all}
use c64_https.TrustBundle.{
  Bundle, magic, version, bytes_lt, check_record, check_all, check_ascending, in_range, bundle_of,
  parse_records, parse, mode_bundle_leaf, flag_warn_only,
}
use c64_https.TrustBundle.Sorting.{Ascending}

-- What a bundle's record may hold.
pub record IsLeaf (r : Record) : Type 0 where
  pub leaf : r.mode ≡ mode_bundle_leaf
  pub warn_only : r.flags ≡ flag_warn_only
  pub unused : r.uses ≡ 0

check_record-IsLeaf : (r : Record) → check_record r ≡ ok tt → IsLeaf r
unfolding check_record
check_record-IsLeaf r h = ground arith

pub IsLeaf-check_record : (r : Record) → IsLeaf r → check_record r ≡ ok tt
unfolding check_record
IsLeaf-check_record r h = ground arith

unit_ok : (m : Result (Unit {0})) (x : Unit {0}) → m ≡ ok x → m ≡ ok tt
unit_ok m tt h = h

pub check_ascending_lem :
    (p : Option (List ℕ)) (rs : List Record)
    → Ascending p rs
    → All IsLeaf rs
    → check_ascending p rs ≡ ok tt
unfolding check_ascending
check_ascending_lem p [] a l = refl
check_ascending_lem none (r ∷ rs) a l =
    rw (IsLeaf-check_record r l.0) (check_ascending_lem (some r.key) rs a l.1)
check_ascending_lem (some k) (r ∷ rs) a l =
    rw (IsLeaf-check_record r l.0, a.0) (check_ascending_lem (some r.key) rs a.1 l.1)

pub check_ascending-Ascending :
    (p : Option (List ℕ)) (rs : List Record)
    → check_ascending p rs ≡ ok tt
    → Ascending p rs × All IsLeaf rs
unfolding check_ascending
check_ascending-Ascending p [] h = (tt, tt)
check_ascending-Ascending none (r ∷ rs) h =
    let (_, e, h1) = >>=-eq-ok (check_record r) _ h in
    let (a, l) = check_ascending-Ascending (some r.key) rs h1 in
    (a, (check_record-IsLeaf r (unit_ok _ _ e), l))
check_ascending-Ascending (some k) (r ∷ rs) h =
    let (_, e, h1) = >>=-eq-ok (check_record r) _ h in
    let (lt, h2) = guard-eq-ok (bytes_lt k r.key) _ _ h1 in
    let (a, l) = check_ascending-Ascending (some r.key) rs h2 in
    ((lt, a), (check_record-IsLeaf r (unit_ok _ _ e), l))

pub check_all_lem : (rs : List Record) → All IsLeaf rs → check_all rs ≡ ok tt
unfolding check_all
check_all_lem [] l = refl
check_all_lem (r ∷ rs) l = rw (IsLeaf-check_record r l.0) (check_all_lem rs l.1)

-- The bytes of a bundle of `n` records, with what is read from them.
pub record IsBundle (blob : List ℕ) (n : ℕ) (b : Bundle) : Type 0 where
  pub room : n ≤ 32
  pub len : length blob ≡ 8 + 64 * n + 64
  pub starts : take 4 blob ≡ magic
  pub version_at : index blob 4 ≡ ok version
  pub count_at : index blob 7 ≡ ok n
  pub gen_at : b.generation ≡ from_le (slice 5 7 blob)
  pub recs_at : unpack_all 0 n blob ≡ ok b.records
  pub ascending : Ascending none b.records
  pub leaves : All IsLeaf b.records
  pub r_at : b.r ≡ from_be (slice (8 + 64 * n) (8 + 64 * n + 32) blob)
  pub s_at : b.s ≡ from_be (slice (8 + 64 * n + 32) (8 + 64 * n + 64) blob)
  pub r_range : in_range b.r ≡ true
  pub s_range : in_range b.s ≡ true
  pub signed_at : b.signed ≡ take (8 + 64 * n) blob

records_parts :
    (blob : List ℕ) (n : ℕ) (b : Bundle)
    → parse_records blob n ≡ ok b
    → (recs : List Record) × (unpack_all 0 n blob ≡ ok recs)
      × Ascending none recs
      × All IsLeaf recs
      × ((in_range b.r && in_range b.s) ≡ true)
      × (bundle_of blob n recs ≡ b)
unfolding parse_records
records_parts blob n b h =
    let (recs, er, h8) = >>=-eq-ok (unpack_all 0 n blob) _ h in
    let (x, ea, h9) = >>=-eq-ok (check_ascending none recs) _ h8 in
    let made = bundle_of blob n recs in
    let (ranges, h10) = guard-eq-ok (in_range made.r && in_range made.s) _ _ h9 in
    let (asc, leaves) = check_ascending-Ascending none recs (unit_ok _ x ea) in
    let e : made ≡ b = ok-injective made b h10 in
    (recs, er, asc, leaves, ap (λ t. in_range t.r && in_range t.s) (sym e) ∙ ranges, e)

pub and_parts : (x y : Bool) → (x && y) ≡ true → (x ≡ true) × (y ≡ true)
and_parts x y h = (ground arith, ground arith)

records-IsBundle :
    (blob : List ℕ) (n : ℕ) (b : Bundle)
    → n ≤ 32
    → length blob ≡ 8 + 64 * n + 64
    → take 4 blob ≡ magic
    → index blob 4 ≡ ok version
    → index blob 7 ≡ ok n
    → parse_records blob n ≡ ok b
    → IsBundle blob n b
records-IsBundle blob n b room len starts at4 at7 h =
    let (recs, er, asc, leaves, ranges, e) = records_parts blob n b h in
    let (rr, rs) = and_parts (in_range b.r) (in_range b.s) ranges in
    let er' : recs ≡ b.records = ap (λ (t : Bundle). t.records) e in
    record {
      room = room;
      len = len;
      starts = starts;
      version_at = at4;
      count_at = at7;
      gen_at = ap (λ (t : Bundle). t.generation) (sym e);
      recs_at = er ∙ ap ok er';
      ascending = subst (Ascending none) er' asc;
      leaves = subst (All IsLeaf) er' leaves;
      r_at = ap (λ (t : Bundle). t.r) (sym e);
      s_at = ap (λ (t : Bundle). t.s) (sym e);
      r_range = rr;
      s_range = rs;
      signed_at = ap (λ (t : Bundle). t.signed) (sym e);
    }

parse-IsBundle : (blob : List ℕ) (b : Bundle) → parse blob ≡ ok b → (n : ℕ) × IsBundle blob n b
unfolding parse
parse-IsBundle blob b h =
    let (_, h1) = guard-eq-ok (leb 72 (length blob)) _ _ h in
    let (b2, h2) = guard-eq-ok (list_eq (take 4 blob) magic) _ _ h1 in
    let (v, ev, h3) = >>=-eq-ok (index blob 4) _ h2 in
    let (b4, h4) = guard-eq-ok (v == version) _ _ h3 in
    let (n, en, h5) = >>=-eq-ok (index blob 7) _ h4 in
    let (b6, h6) = guard-eq-ok (leb n 32) _ _ h5 in
    let (b7, h7) = guard-eq-ok (length blob == 8 + 64 * n + 64) _ _ h6 in
    (
      n,
      records-IsBundle blob n b (leb→le n 32 b6) ((==_iff _ _).0 b7) (list_eq→eq _ _ b2)
          (ev ∙ ap ok ((==_iff v version).0 b4)) en h7,
    )

IsBundle-parse : (blob : List ℕ) (n : ℕ) (b : Bundle) → IsBundle blob n b → parse blob ≡ ok b
unfolding parse parse_records
IsBundle-parse blob n b f =
    let e : bundle_of blob n b.records ≡ b = λ i. record {
      generation = sym f.gen_at i;
      records = b.records;
      r = sym f.r_at i;
      s = sym f.s_at i;
      signed = sym f.signed_at i;
    } in
    let c = check_ascending_lem none b.records f.ascending f.leaves in
    rw (f.version_at, f.count_at, f.recs_at, c)
      (rw (← f.r_at, ← f.s_at, ← f.gen_at, ← f.signed_at)
        (ground (arith, eq→list_eq _ _ f.starts, f.len, f.room, f.r_range, f.s_range)))

-- `parse` accepts a blob exactly when it is the bytes of a bundle: the magic and the version, a count
-- up to 32 that the length agrees with, leaf records in strictly ascending order of their keys, and a
-- trailer whose two numbers are in range. What it returns is read from those bytes.
pub parse_iff : (blob : List ℕ) (b : Bundle) → (parse blob ≡ ok b) ↔ ((n : ℕ) × IsBundle blob n b)
parse_iff blob b = (parse-IsBundle blob b, λ h. IsBundle-parse blob h.0 b h.1)
