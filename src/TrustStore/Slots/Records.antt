-- ===== src/TrustStore/Slots/Records.antt =====
-- tools/trust_store.py: the list of records under `save`: the record that is put is found, the others
-- are found as before, and what `encode` accepts can be packed.
use c64_https.Common.{
  ℕ, zero, suc, ◌+◌, ◌*◌, ◌%◌, ◌≤◌, ◌≡◌, ◌≢◌, refl, sym, ap, ◌∙◌, inl, inr, none, some, List, [],
  ◌∷◌, ◌++◌, map, length, All, drop, slice, length-take, length-drop, leb, list_eq_iff,
  list_eq_refl, ok, guard, >>=-eq-ok, arith, Option-cases, length-append,
}
use mathlib.Core.Option
use mathlib.Core.Path.{ap₂, subst}
use c64_https.Common.Bytes.{pack_u16}
use c64_https.TrustStore.Hashlib.{Hash}
use c64_https.TrustStore.{
  Record, of_record, pack, pack_all, encode, unpack, unpack_all, unpack_bbh, padded,
}
use c64_https.TrustStore.Codec.{IsPackable, stored}
use c64_https.TrustStore.Accepted.{padded_id, slice_len}
use c64_https.TrustStore.Slots.{replace, find_key, put_record}

pub pack-IsPackable : (r : Record) (bs : List ℕ) → pack r ≡ ok bs → IsPackable r
unfolding pack pack_u16
pack-IsPackable r bs h = ground arith

pub pack_all-IsPackable :
    (recs : List Record) (bs : List ℕ) → pack_all (map of_record recs) ≡ ok bs → All IsPackable recs
unfolding pack_all
pack_all-IsPackable [] bs h = tt
pack_all-IsPackable (r ∷ rs) bs h =
    let (p, ep, h1) = >>=-eq-ok (pack r) _ h in
    let (q, eq, h2) = >>=-eq-ok (pack_all (map of_record rs)) _ h1 in
    (pack-IsPackable r p ep, pack_all-IsPackable rs q eq)

pub encode-IsPackable :
    (sha : Hash) (gen : ℕ) (recs : List Record) (file : List ℕ)
    → encode sha gen (map of_record recs) ≡ ok file
    → All IsPackable recs
unfolding encode
encode-IsPackable sha gen recs file h =
    let (_, _, h1) = >>=-eq-ok (guard (leb (length (map of_record recs)) 255) _) _ h in
    let (g, eg, h2) = >>=-eq-ok (pack_u16 (gen % 65536)) _ h1 in
    let (bs, eb, h3) = >>=-eq-ok (pack_all (map of_record recs)) _ h2 in
    pack_all-IsPackable recs bs eb

-- `find_key` in terms of the head.
pub find_key-replace_self :
    (rec : Record) (recs new : List Record)
    → replace rec recs ≡ some new
    → find_key rec.key new ≡ some rec
unfolding replace find_key
find_key-replace_self rec [] new h = cc
find_key-replace_self rec (r ∷ rs) new h = elim (Option-cases (replace rec rs)) [
  | inl e ↦ ground (arith, e, list_eq_refl rec.key)
  | inr (rs', e) ↦ ground (arith, e, find_key-replace_self rec rs rs' e, list_eq_refl rec.key)
]

pub find_key-replace_other :
    (rec : Record) (k : List ℕ) (recs new : List Record)
    → k ≢ rec.key
    → replace rec recs ≡ some new
    → find_key k new ≡ find_key k recs
unfolding replace find_key
find_key-replace_other rec k [] new n h = cc
find_key-replace_other rec k (r ∷ rs) new n h = elim (Option-cases (replace rec rs)) [
  | inl e ↦ ground (arith, e, list_eq_iff rec.key k, list_eq_iff r.key k, list_eq_iff r.key rec.key)
  | inr (rs', e) ↦ ground (
    arith,
    e,
    find_key-replace_other rec k rs rs' n e,
    list_eq_iff rec.key k,
    list_eq_iff r.key k,
    list_eq_iff r.key rec.key,
  )
]

pub length-replace :
    (rec : Record) (recs new : List Record) → replace rec recs ≡ some new → length new ≡ length recs
unfolding replace
length-replace rec [] new h = cc
length-replace rec (r ∷ rs) new h = elim (Option-cases (replace rec rs)) [
  | inl e ↦ ground (arith, e)
  | inr (rs', e) ↦ ground (arith, e, length-replace rec rs rs' e)
]

find_key-replace-none :
    (rec : Record) (recs : List Record)
    → replace rec recs ≡ none
    → find_key rec.key (recs ++ (rec ∷ [])) ≡ some rec
unfolding replace find_key
find_key-replace-none rec [] h = rw (list_eq_refl rec.key)
find_key-replace-none rec (r ∷ rs) h = elim (Option-cases (replace rec rs)) [
  | inl e ↦ ground (arith, e, find_key-replace-none rec rs e)
  | inr (rs', e) ↦ ground (arith, e)
]

find_key-append_other :
    (rec : Record) (k : List ℕ) (recs : List Record)
    → k ≢ rec.key
    → find_key k (recs ++ (rec ∷ [])) ≡ find_key k recs
unfolding find_key
find_key-append_other rec k [] n = ground (arith, list_eq_iff rec.key k)
find_key-append_other rec k (r ∷ rs) n = ground (arith, find_key-append_other rec k rs)

pub find_key-stored :
    (k : List ℕ) (recs : List Record)
    → find_key k (map stored recs) ≡ Option.map stored (find_key k recs)
unfolding find_key
find_key-stored k [] = refl
find_key-stored k (r ∷ rs) = ground (arith, find_key-stored k rs)

pub find_key-put_self :
    (rec : Record) (recs new : List Record)
    → put_record rec recs ≡ ok new
    → find_key rec.key new ≡ some rec
unfolding put_record
find_key-put_self rec recs new h = elim (Option-cases (replace rec recs)) [
  | inl e ↦ ground (arith, e, find_key-replace-none rec recs e)
  | inr (new', e) ↦ ground (arith, e, find_key-replace_self rec recs new' e)
]

pub find_key-put_other :
    (rec : Record) (k : List ℕ) (recs new : List Record)
    → k ≢ rec.key
    → put_record rec recs ≡ ok new
    → find_key k new ≡ find_key k recs
unfolding put_record
find_key-put_other rec k recs new n h = elim (Option-cases (replace rec recs)) [
  | inl e ↦ ground (arith, e, find_key-append_other rec k recs n)
  | inr (new', e) ↦ ground (arith, e, find_key-replace_other rec k recs new' n e)
]

pub length-put :
    (rec : Record) (recs new : List Record)
    → length recs ≤ 32
    → put_record rec recs ≡ ok new
    → length new ≤ 32
unfolding put_record
length-put rec recs new room h = elim (Option-cases (replace rec recs)) [
  | inl e ↦ ground (arith, e, length-append recs (rec ∷ []))
  | inr (new', e) ↦ ground (arith, e, length-replace rec recs new' e)
]

-- The records of a file have displays of 12 bytes, so that storing them again changes nothing.
unpack-stored : (raw : List ℕ) (r : Record) → length raw ≡ 64 → unpack raw ≡ ok r → stored r ≡ r
unfolding unpack
unpack-stored raw r len h =
    let (v, ev, h1) = >>=-eq-ok (unpack_bbh (drop 48 raw)) _ h in
    let disp : slice 52 64 raw ≡ r.display = ground (arith, h1) in
    let twelve : length (slice 52 64 raw) ≡ 12 =
      length-take 12 (drop 52 raw) ∙ omega (arith, length-drop 52 raw) in
    let same : padded r.display ≡ r.display = padded_id r.display (rw disp at twelve) in
    λ i. record r { display = same i }

pub unpack_all-stored :
    (i k : ℕ) (blob : List ℕ) (recs : List Record)
    → 8 + (i + k) * 64 ≤ length blob
    → unpack_all i k blob ≡ ok recs
    → map stored recs ≡ recs
unfolding unpack_all
unpack_all-stored i zero blob [] room h = refl
unpack_all-stored i zero blob (r ∷ rs) room h = cc
unpack_all-stored i (suc k) blob recs room h =
    let raw = slice (8 + i * 64) (8 + (i + 1) * 64) blob in
    let (r, er, h1) = >>=-eq-ok (unpack raw) _ h in
    let (rs, ers, h2) = >>=-eq-ok (unpack_all (i + 1) k blob) _ h1 in
    let e : r ∷ rs ≡ recs = cc in
    subst (λ l. map stored l ≡ l) e
      (ap₂ (λ a b. a ∷ b) (unpack-stored raw r (slice_len i k blob room) er)
        (unpack_all-stored (i + 1) k blob rs (omega arith) ers))

pub length-unpack_all :
    (i k : ℕ) (blob : List ℕ) (recs : List Record) → unpack_all i k blob ≡ ok recs → length recs ≡ k
unfolding unpack_all
length-unpack_all i zero blob [] h = refl
length-unpack_all i zero blob (r ∷ rs) h = cc
length-unpack_all i (suc k) blob recs h =
    let raw = slice (8 + i * 64) (8 + (i + 1) * 64) blob in
    let (r, er, h1) = >>=-eq-ok (unpack raw) _ h in
    let (rs, ers, h2) = >>=-eq-ok (unpack_all (i + 1) k blob) _ h1 in
    let e : r ∷ rs ≡ recs = cc h2 in
    sym (ap length e) ∙ ap suc (length-unpack_all (i + 1) k blob rs ers)
