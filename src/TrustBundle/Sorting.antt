-- ===== src/TrustBundle/Sorting.antt =====
-- tools/trust_bundle.py: the order of records by key, which `unsigned_body` makes and `parse` checks.
use c64_https.Common.{
  ℕ, ◌≡◌, refl, ap, ◌∙◌, true, false, not, ◌&&◌, ◌||◌, Option, none, some, List, [], ◌∷◌, list_eq,
  list_eq_iff, list_eq-sym, arith, Bool-cases, inl, inr,
}
use mathlib.Core.List.{Perm}
use mathlib.Core.List.Perm
use c64_https.TrustStore.{Record}
use c64_https.TrustBundle.{bytes_lt, insert, sorted, contains, all_distinct}

pub bytes_lt_irrefl : (xs : List ℕ) → bytes_lt xs xs ≡ false
unfolding bytes_lt
bytes_lt_irrefl [] = refl
bytes_lt_irrefl (x ∷ xs) = ground (arith, bytes_lt_irrefl xs)

pub bytes_lt-asymm : (xs ys : List ℕ) → bytes_lt xs ys ≡ true → bytes_lt ys xs ≡ false
unfolding bytes_lt
bytes_lt-asymm [] [] h = cc
bytes_lt-asymm [] (y ∷ ys) h = refl
bytes_lt-asymm (x ∷ xs) [] h = cc
bytes_lt-asymm (x ∷ xs) (y ∷ ys) h = ground (arith, bytes_lt-asymm xs ys)

-- Two keys that are not in order either way are equal.
pub bytes_lt-total :
    (xs ys : List ℕ) → bytes_lt xs ys ≡ false → list_eq ys xs ≡ false → bytes_lt ys xs ≡ true
unfolding bytes_lt list_eq
bytes_lt-total [] [] h n = cc
bytes_lt-total [] (y ∷ ys) h n = cc
bytes_lt-total (x ∷ xs) [] h n = refl
bytes_lt-total (x ∷ xs) (y ∷ ys) h n = ground (arith, bytes_lt-total xs ys)

pub bytes_lt_trans :
    (xs ys zs : List ℕ) → bytes_lt xs ys ≡ true → bytes_lt ys zs ≡ true → bytes_lt xs zs ≡ true
unfolding bytes_lt
bytes_lt_trans [] [] zs h k = cc
bytes_lt_trans [] (y ∷ ys) [] h k = cc
bytes_lt_trans [] (y ∷ ys) (z ∷ zs) h k = refl
bytes_lt_trans (x ∷ xs) [] zs h k = cc
bytes_lt_trans (x ∷ xs) (y ∷ ys) [] h k = cc
bytes_lt_trans (x ∷ xs) (y ∷ ys) (z ∷ zs) h k = ground (arith, bytes_lt_trans xs ys zs)

-- Every key of the list is above `key`, and each above the one before.
abbrev pub Ascending : Option (List ℕ) → List Record → Type 0
Ascending previous [] = Unit {0}
Ascending none (r ∷ rs) = Ascending (some r.key) rs
Ascending (some key) (r ∷ rs) = (bytes_lt key r.key ≡ true) × Ascending (some r.key) rs

insert-perm : (r : Record) (rs : List Record) → Perm (insert r rs) (r ∷ rs)
unfolding insert
insert-perm r [] = Perm.refl (r ∷ [])
insert-perm r (x ∷ xs) = elim (Bool-cases (bytes_lt x.key r.key)) [
  | inl t ↦ rw t (Perm.trans (Perm.cons x (insert-perm r xs)) (Perm.swap r x xs))
  | inr t ↦ rw t (Perm.refl (r ∷ x ∷ xs))
]

pub sorted-perm : (rs : List Record) → Perm (sorted rs) rs
unfolding sorted
sorted-perm [] = Perm.refl []
sorted-perm (r ∷ rs) = Perm.trans (insert-perm r (sorted rs)) (Perm.cons r (sorted-perm rs))

insert_head :
    (r x : Record) (xs : List Record) → Ascending none (r ∷ x ∷ xs) → insert r (x ∷ xs) ≡ r ∷ x ∷ xs
unfolding insert
insert_head r x xs h = rw (bytes_lt-asymm r.key x.key h.0)

Ascending-tail :
    (key : Option (List ℕ)) (r : Record) (rs : List Record)
    → Ascending key (r ∷ rs)
    → Ascending none rs
Ascending-tail none r [] h = tt
Ascending-tail none r (x ∷ xs) h = h.1
Ascending-tail (some k) r [] h = tt
Ascending-tail (some k) r (x ∷ xs) h = h.1.1

-- Sorting leaves an ascending list as it is.
pub sorted_id : (rs : List Record) → Ascending none rs → sorted rs ≡ rs
unfolding sorted
sorted_id [] h = refl
sorted_id (r ∷ []) h = unfold insert in refl
sorted_id (r ∷ x ∷ xs) h =
    ap (insert r) (sorted_id (x ∷ xs) (Ascending-tail none r (x ∷ xs) h)) ∙ insert_head r x xs h

contains-insert :
    (k : List ℕ) (r : Record) (rs : List Record)
    → contains k (insert r rs) ≡ (list_eq k r.key || contains k rs)
unfolding contains insert
contains-insert k r [] = refl
contains-insert k r (x ∷ xs) = ground (arith, contains-insert k r xs)

distinct-insert :
    (r : Record) (rs : List Record)
    → all_distinct (insert r rs) ≡ (not (contains r.key rs) && all_distinct rs)
unfolding all_distinct insert contains
distinct-insert r [] = refl
distinct-insert r (x ∷ xs) =
    ground (arith, contains-insert x.key r xs, distinct-insert r xs, list_eq-sym x.key r.key)

contains-sorted : (k : List ℕ) (rs : List Record) → contains k (sorted rs) ≡ contains k rs
unfolding sorted contains
contains-sorted k [] = refl
contains-sorted k (r ∷ rs) = ground (arith, contains-insert k r (sorted rs), contains-sorted k rs)

pub distinct-sorted : (rs : List Record) → all_distinct (sorted rs) ≡ all_distinct rs
unfolding sorted all_distinct
distinct-sorted [] = refl
distinct-sorted (r ∷ rs) =
    ground (arith, distinct-insert r (sorted rs), distinct-sorted rs, contains-sorted r.key rs)

abbrev Above : Option (List ℕ) → List ℕ → Type 0
Above none k = Unit {0}
Above (some j) k = bytes_lt j k ≡ true

Ascending-cons :
    (p : Option (List ℕ)) (r : Record) (rs : List Record)
    → Above p r.key
    → Ascending (some r.key) rs
    → Ascending p (r ∷ rs)
Ascending-cons none r rs a h = h
Ascending-cons (some j) r rs a h = (a, h)

Ascending-parts :
    (p : Option (List ℕ)) (r : Record) (rs : List Record)
    → Ascending p (r ∷ rs)
    → Above p r.key × Ascending (some r.key) rs
Ascending-parts none r rs h = (tt, h)
Ascending-parts (some j) r rs h = h

insert-Ascending :
    (p : Option (List ℕ)) (r : Record) (rs : List Record)
    → Above p r.key
    → contains r.key rs ≡ false
    → Ascending p rs
    → Ascending p (insert r rs)
unfolding insert contains
insert-Ascending p r [] a n h = Ascending-cons p r [] a tt
insert-Ascending p r (x ∷ xs) a n h =
    let (ax, hx) = Ascending-parts p x xs h in
    elim (Bool-cases (bytes_lt x.key r.key)) [
      | inl t ↦ rw t (
          Ascending-cons p x (insert r xs) ax
            (insert-Ascending (some x.key) r xs t (ground arith) hx))
      | inr t ↦
          rw t (Ascending-cons p r (x ∷ xs) a (bytes_lt-total x.key r.key t (ground arith), hx))
    ]

-- Sorting records of distinct keys puts the keys in strictly ascending order.
pub sorted-Ascending : (rs : List Record) → all_distinct rs ≡ true → Ascending none (sorted rs)
unfolding sorted all_distinct
sorted-Ascending [] h = tt
sorted-Ascending (r ∷ rs) h =
    insert-Ascending none r (sorted rs) tt (contains-sorted r.key rs ∙ (ground arith))
      (sorted-Ascending rs (ground arith))

below_not_contained :
    (k : List ℕ) (rs : List Record) → Ascending (some k) rs → contains k rs ≡ false
unfolding contains
below_not_contained k [] h = refl
below_not_contained k (r ∷ rs) (lt, h) =
    ground (arith, list_eq_iff k r.key, bytes_lt_irrefl k, below_not_contained k rs (weaken rs h))
  where
    weaken : (l : List Record) → Ascending (some r.key) l → Ascending (some k) l
    weaken [] g = tt
    weaken (x ∷ xs) (g, gs) = (bytes_lt_trans k r.key x.key lt g, gs)

-- Keys in strictly ascending order are distinct.
pub Ascending-distinct : (rs : List Record) → Ascending none rs → all_distinct rs ≡ true
unfolding all_distinct
Ascending-distinct [] h = refl
Ascending-distinct (r ∷ rs) h =
    ground
      (arith, below_not_contained r.key rs h, Ascending-distinct rs (Ascending-tail none r rs h))
