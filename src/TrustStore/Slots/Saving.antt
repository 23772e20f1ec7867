-- ===== src/TrustStore/Slots/Saving.antt =====
-- tools/trust_store.py: when `save` returns, and with which error it does not.
use c64_https.Common.{
  some-injective, ℕ, ◌+◌, ◌%◌, ◌≤◌, ◌<◌, ◌≡◌, ◌≢◌, refl, sym, ap, ◌∙◌, ◌⊎◌, inl, inr, true, none,
  some, List, [], ◌∷◌, ◌++◌, length, All, All-append, list_eq, leb, leb→le, Bool-cases,
  Option-cases, ok, raised, store_error, arith,
}
use Prim.Native.Nat.{bit_xor}
use mathlib.Core.Path.{subst}
use c64_https.Common.Bytes.{IsByte}
use c64_https.TrustStore.Hashlib.{Hash}
use c64_https.TrustStore.{Record, Host, host_key, checksum, r_full}
use c64_https.TrustStore.Codec.{IsPackable}
use c64_https.TrustStore.RoundTrip.{body, encode_lem}
use c64_https.TrustStore.Accepted.{encode-decode}
use c64_https.TrustStore.Slots.{
  Slot, content, State, st_valid, st_empty, Selection, select, is_ready, replace, find_key,
  put_record, save,
}
use c64_https.TrustStore.Slots.Choice.{IsHonest}
use c64_https.TrustStore.Slots.Safety.{Took, first, second, select-Took, select-empty}
use c64_https.TrustStore.Slots.Records.{encode-IsPackable, length-put}
use c64_https.TrustStore.Slots.Saved.{ready-Next}

-- The content of a slot is made of bytes.
abbrev pub HoldsBytes : Slot → Type 0
HoldsBytes (content file) = All IsByte file
HoldsBytes _ = Unit {0}

replace-none :
    (rec : Record) (recs : List Record) → replace rec recs ≡ none → find_key rec.key recs ≡ none
unfolding replace find_key
replace-none rec [] h = refl
replace-none rec (r ∷ rs) h = elim (Option-cases (replace rec rs)) [
  | inl e ↦ ground (arith, e, replace-none rec rs e)
  | inr (rs', e) ↦ ground (arith, e)
]

replace-some :
    (rec : Record) (recs new : List Record)
    → replace rec recs ≡ some new
    → find_key rec.key recs ≢ none
unfolding replace find_key
replace-some rec [] new h = cc
replace-some rec (r ∷ rs) new h = elim (Option-cases (replace rec rs)) [
  | inl e ↦ ground (arith, e)
  | inr (rs', e) ↦ ground (arith, e, replace-some rec rs rs' e)
]

replace-All :
    (rec : Record) (recs new : List Record)
    → All IsPackable recs
    → IsPackable rec
    → replace rec recs ≡ some new
    → All IsPackable new
unfolding replace
replace-All rec [] new a p h = cc
replace-All rec (r ∷ rs) new (ar, rest) p h = elim (Bool-cases (list_eq r.key rec.key)) [
  | inl f ↦ subst (All IsPackable) (some-injective (rw f at h)) (p, rest)
  | inr f ↦ elim (Option-cases (replace rec rs)) [
    | inl e ↦ absurd (ground (arith, e, f))
    | inr (rs', e) ↦
        subst (All IsPackable) (some-injective (rw (f, e) at h))
          (ar, replace-All rec rs rs' rest p e)
  ]
]

-- A record can be put where its key is known, or where there is room.
put-total :
    (rec : Record) (old : List Record)
    → (find_key rec.key old ≢ none) ⊎ (length old < 32)
    → All IsPackable old
    → IsPackable rec
    → (new : List Record) × (put_record rec old ≡ ok new) × All IsPackable new
unfolding put_record
put-total rec old room all p = elim (Option-cases (replace rec old)) [
  | inl e ↦ elim (Bool-cases (leb 32 (length old))) [
    | inl f ↦ absurd (elim room [
      | inl n ↦ n (replace-none rec old e)
      | inr l ↦ omega (arith, leb→le 32 (length old) f)
    ])
    | inr f ↦
        (old ++ (rec ∷ []), ground (arith, e, f), All-append IsPackable old (rec ∷ []) all (p, tt))
  ]
  | inr (new, e) ↦ (new, ground (arith, e), replace-All rec old new all p e)
]

-- A record of a key that is not there is not put among 32 others.
put-full :
    (rec : Record) (old : List Record)
    → find_key rec.key old ≡ none
    → 32 ≤ length old
    → put_record rec old ≡ raised (store_error r_full)
unfolding put_record
put-full rec old h l = elim (Option-cases (replace rec old)) [
  | inl e ↦ ground (arith, e)
  | inr (new, e) ↦ absurd (replace-some rec old new e h)
]

module _ (sha : Hash) where
  Took-IsPackable :
      (a b : Slot) (sel : Selection) (old : List Record)
      → HoldsBytes a
      → HoldsBytes b
      → Took sha a b sel
      → sel.records ≡ some old
      → All IsPackable old
  Took-IsPackable a b sel old ba bb (first f (g, rs) st ea ed es _) h =
      let by : All IsByte f = subst HoldsBytes ea ba in
      subst (All IsPackable) (some-injective (ap (λ s. s.records) (sym es) ∙ h))
        (encode-IsPackable sha g rs f (encode-decode sha f g rs by ed))
  Took-IsPackable a b sel old ba bb (second f (g, rs) st eb ed es _) h =
      let by : All IsByte f = subst HoldsBytes eb bb in
      subst (All IsPackable) (some-injective (ap (λ s. s.records) (sym es) ∙ h))
        (encode-IsPackable sha g rs f (encode-decode sha f g rs by ed))

  ready-IsPackable :
      (a b : Slot) (sel : Selection) (old : List Record) (state : State)
      → IsHonest a
      → IsHonest b
      → HoldsBytes a
      → HoldsBytes b
      → select sha a b ≡ ok sel
      → sel.records ≡ some old
      → sel.state ≡ state
      → is_ready state ≡ true
      → All IsPackable old
  ready-IsPackable a b sel old st_valid ha hb ba bb h l es t =
      Took-IsPackable a b sel old ba bb (select-Took sha a b sel ha hb h es) l
  ready-IsPackable a b sel old st_empty ha hb ba bb h l es t =
      let (_, e) = select-empty sha a b sel ha hb h es in
      subst (All IsPackable) (some-injective (ap (λ s. s.records) (sym e) ∙ l)) tt
  ready-IsPackable a b sel old _ ha hb ba bb h l es t = cc

  -- A save returns, to the slot that was not selected, where the slots hold bytes, the selection is
  -- valid or empty, the host has a key, the record fits its 64 bytes, and its key is in the store
  -- or the store has fewer than 32 records. The codes of failures to open are other than that of
  -- success.
  pub save_returns :
      (a b : Slot) (host : Host) (r : Record) (sel : Selection) (key : List ℕ) (old : List Record)
      → IsHonest a
      → IsHonest b
      → HoldsBytes a
      → HoldsBytes b
      → select sha a b ≡ ok sel
      → is_ready sel.state ≡ true
      → sel.records ≡ some old
      → host_key sha host ≡ ok key
      → IsPackable (record r { key = key })
      → (find_key key old ≢ none) ⊎ (length old < 32)
      → (file : List ℕ) × (save sha a b host r ≡ ok (bit_xor sel.slot 1, file))
  unfolding save
  save_returns a b host r sel key old ha hb ba bb es t l ek p room =
      let all = ready-IsPackable a b sel old sel.state ha hb ba bb es l refl t in
      let n = ready-Next sha a b sel old sel.state ha hb es (rw l refl) refl t in
      let (new, ep, packs) = put-total (record r { key = key }) old room all p in
      let few = length-put (record r { key = key }) old new n.few ep in
      let gen = (sel.gen + 1) % 65536 in
      (
        body gen new ++ checksum sha (body gen new),
        rw (es, t, ek, l, ep) (rw (encode_lem sha gen new packs (omega arith)) refl),
      )

  -- Where the selection is valid or empty, a record of a key that is not in the store is refused
  -- with FULL by a store of 32 records or more.
  pub save-full :
      (a b : Slot) (host : Host) (r : Record) (sel : Selection) (key : List ℕ) (old : List Record)
      → select sha a b ≡ ok sel
      → is_ready sel.state ≡ true
      → sel.records ≡ some old
      → host_key sha host ≡ ok key
      → find_key key old ≡ none
      → 32 ≤ length old
      → save sha a b host r ≡ raised (store_error r_full)
  unfolding save
  save-full a b host r sel key old es t l ek n full =
      rw (es, t, ek, l) (rw (put-full (record r { key = key }) old n full) refl)
