-- ===== src/TrustStore/Slots/Durable.antt =====
-- tools/trust_store.py: a save that was written is what the next `select` reads, and a save that was
-- cut short leaves the store as it was.
use c64_https.Common.{
  ℕ, ◌+◌, ◌%◌, ◌≡◌, ◌≢◌, refl, sym, ap, ◌∙◌, some, List, ◌∷◌, ◌++◌, map, ok, raised, ok-injective,
  store_error, arith,
}
use Prim.Native.Nat.{bit_xor}
use mathlib.Core.Option
use c64_https.TrustStore.Hashlib.{Hash}
use c64_https.TrustStore.{Record, Host, host_key, decode, r_format}
use c64_https.TrustStore.Codec.{stored}
use c64_https.TrustStore.Refusals.{decode-truncated}
use c64_https.TrustStore.Slots.{
  Slot, content, st_valid, Selection, valid, slot_result, select, find_key, lookup, save,
}
use c64_https.TrustStore.Slots.Choice.{IsHonest, select_first, select_second}
use c64_https.TrustStore.Slots.Safety.{Took, first, second, select-Took}
use c64_https.TrustStore.Slots.Records.{
  length-put, find_key-put_self, find_key-put_other, find_key-stored,
}
use c64_https.TrustStore.Slots.Saved.{write_slot, Steps, save-Steps, saved_file, Next, ready-Next}

module _ (sha : Hash) where
  lookup-valid :
      (pick gen : ℕ) (recs : List Record) (st : ℕ × ℕ) (host : Host) (key : List ℕ)
      → host_key sha host ≡ ok key
      → lookup sha (valid pick (gen, recs) st) host ≡ ok (find_key key recs)
  unfolding lookup
  lookup-valid pick gen recs st host key e = rw e

  -- What the next selection is after a save.
  landed :
      (a b : Slot) (host : Host) (r : Record) (target : ℕ) (file : List ℕ)
      → IsHonest a
      → IsHonest b
      → (s : Steps sha a b host r target file)
      → (st : ℕ × ℕ) × (select sha (write_slot target file a b).0 (write_slot target file a b).1
          ≡ ok (valid target ((s.sel.gen + 1) % 65536, map stored s.recs) st))
        × (Next sha a b s.sel s.old)
  landed a b host r target file ha hb s =
      let n = ready-Next sha a b s.sel s.old s.sel.state ha hb s.selected s.listed refl s.ready in
      let room = length-put (record r { key = s.key }) s.old s.recs n.few s.put in
      let (st, e) =
        n.chosen target file (map stored s.recs) s.targeted
          (saved_file sha s.sel.gen s.recs file room s.encoded) in
      (st, e, n)

  -- After a save that returned, with its file written, `select` takes the slot that was written, as
  -- valid and with the next generation, and `lookup` of the host returns the record under the
  -- host's key. The codes of failures to open are other than that of success.
  pub save-select :
      (a b : Slot) (host : Host) (r : Record) (target : ℕ) (file : List ℕ)
      → IsHonest a
      → IsHonest b
      → save sha a b host r ≡ ok (target, file)
      → (key : List ℕ) × (sel : Selection) × (sel' : Selection) × (host_key sha host ≡ ok key)
        × (select sha a b ≡ ok sel)
        × (select sha (write_slot target file a b).0 (write_slot target file a b).1 ≡ ok sel')
        × (sel'.state ≡ st_valid)
        × (sel'.slot ≡ target)
        × (sel'.gen ≡ (sel.gen + 1) % 65536)
        × (lookup sha sel' host ≡ ok (some (stored (record r { key = key }))))
  save-select a b host r target file ha hb h =
      let s = save-Steps sha a b host r target file h in
      let (st, e, n) = landed a b host r target file ha hb s in
      let rec = record r { key = s.key } in
      (
        s.key,
        s.sel,
        valid target ((s.sel.gen + 1) % 65536, map stored s.recs) st,
        s.keyed,
        s.selected,
        e,
        refl,
        refl,
        refl,
        lookup-valid target ((s.sel.gen + 1) % 65536) (map stored s.recs) st host s.key s.keyed
            ∙ ap ok (
                find_key-stored s.key s.recs
                ∙ ap (Option.map stored) (find_key-put_self rec s.old s.recs s.put)),
      )

  -- A save that returned, with its file written, does not change what `lookup` returns for a host
  -- of another key. The codes of failures to open are other than that of success.
  pub save-lookup_other :
      (a b : Slot) (host other : Host) (r : Record) (target : ℕ) (file : List ℕ) (key k : List ℕ)
      (sel sel' : Selection)
      → IsHonest a
      → IsHonest b
      → save sha a b host r ≡ ok (target, file)
      → host_key sha host ≡ ok key
      → host_key sha other ≡ ok k
      → k ≢ key
      → select sha a b ≡ ok sel
      → select sha (write_slot target file a b).0 (write_slot target file a b).1 ≡ ok sel'
      → lookup sha sel' other ≡ lookup sha sel other
  save-lookup_other a b host other r target file key k sel sel' ha hb h ek ek' ne es es' =
      let s = save-Steps sha a b host r target file h in
      let (st, e, n) = landed a b host r target file ha hb s in
      let same_key : s.key ≡ key = ok-injective s.key key (sym s.keyed ∙ ek) in
      let apart : k ≢ s.key = λ q. ne (q ∙ same_key) in
      let new = valid target ((s.sel.gen + 1) % 65536, map stored s.recs) st in
      let same_new : new ≡ sel' = ok-injective new sel' (sym e ∙ es') in
      let same_old : s.sel ≡ sel = ok-injective s.sel sel (sym s.selected ∙ es) in
      ap (λ t. lookup sha t other) (sym same_new)
      ∙ lookup-valid target ((s.sel.gen + 1) % 65536) (map stored s.recs) st other k ek'
      ∙ ap ok (
          find_key-stored k s.recs
          ∙ ap (Option.map stored)
              (find_key-put_other (record r { key = s.key }) k s.old s.recs apart s.put)
          ∙ sym (find_key-stored k s.old)
          ∙ ap (find_key k) n.kept)
      ∙ sym (n.looked other k ek')
      ∙ ap (λ t. lookup sha t other) same_old

  -- The selection where one slot holds the file of `sel` and the other a file that was cut short.
  torn_first :
      (a : Slot) (f front : List ℕ) (d : ℕ × List Record)
      → a ≡ content f
      → decode sha f ≡ ok d
      → decode sha front ≡ raised (store_error r_format)
      → select sha a (content front) ≡ ok (valid 0 d (0, 5))
  unfolding slot_result
  torn_first a f front d ea ed cut =
      rw ea (select_first sha f d (content front) 5 ed (rw cut) (omega arith))

  torn_second :
      (b : Slot) (f front : List ℕ) (d : ℕ × List Record)
      → b ≡ content f
      → decode sha f ≡ ok d
      → decode sha front ≡ raised (store_error r_format)
      → select sha (content front) b ≡ ok (valid 1 d (5, 0))
  unfolding slot_result
  torn_second b f front d eb ed cut =
      rw eb (select_second sha f d (content front) 5 ed (rw cut) (omega arith))

  -- What a selection keeps when the other slot is overwritten by a file cut short.
  pub record Kept (sel sel' : Selection) : Type 0 where
    pub state : sel'.state ≡ sel.state
    pub slot : sel'.slot ≡ sel.slot
    pub gen : sel'.gen ≡ sel.gen
    pub records : sel'.records ≡ sel.records

  Took-Kept :
      (a b : Slot) (sel : Selection) (target : ℕ) (front : List ℕ)
      → Took sha a b sel
      → bit_xor sel.slot 1 ≡ target
      → decode sha front ≡ raised (store_error r_format)
      → (sel' : Selection) × (select sha
            (write_slot target front a b).0
            (write_slot target front a b).1
          ≡ ok sel')
        × Kept sel sel'
  Took-Kept a b sel target front (first f d st ea ed es _) et cut =
      let t : 1 ≡ target = ap (λ s. bit_xor s.slot 1) (sym es) ∙ et in
      (
        valid 0 d (0, 5),
        rw (← t) (torn_first a f front d ea ed cut),
        rw es (record { state = refl; slot = refl; gen = refl; records = refl }),
      )
  Took-Kept a b sel target front (second f d st eb ed es _) et cut =
      let t : 0 ≡ target = ap (λ s. bit_xor s.slot 1) (sym es) ∙ et in
      (
        valid 1 d (5, 0),
        rw (← t) (torn_second b f front d eb ed cut),
        rw es (record { state = refl; slot = refl; gen = refl; records = refl }),
      )

  -- If only a proper prefix of the file that `save` returns reaches its slot, a valid store is
  -- selected as before: the same slot, generation and records. The codes of failures to open are
  -- other than that of success.
  pub save-torn :
      (a b : Slot) (host : Host) (r : Record) (target : ℕ) (front : List ℕ) (x : ℕ) (back : List ℕ)
      (sel : Selection)
      → IsHonest a
      → IsHonest b
      → select sha a b ≡ ok sel
      → sel.state ≡ st_valid
      → save sha a b host r ≡ ok (target, front ++ (x ∷ back))
      → (sel' : Selection) × (select sha
            (write_slot target front a b).0
            (write_slot target front a b).1
          ≡ ok sel')
        × Kept sel sel'
  save-torn a b host r target front x back sel ha hb es v h =
      let s = save-Steps sha a b host r target (front ++ (x ∷ back)) h in
      let (_, _, n) = landed a b host r target (front ++ (x ∷ back)) ha hb s in
      let room = length-put (record r { key = s.key }) s.old s.recs n.few s.put in
      let dec = saved_file sha s.sel.gen s.recs (front ++ (x ∷ back)) room s.encoded in
      let cut = decode-truncated sha front x back _ _ dec in
      let same : s.sel ≡ sel = ok-injective s.sel sel (sym s.selected ∙ es) in
      Took-Kept a b sel target front (select-Took sha a b sel ha hb es v)
        (ap (λ t. bit_xor t.slot 1) (sym same) ∙ s.targeted) cut
