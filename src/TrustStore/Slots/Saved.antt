-- ===== src/TrustStore/Slots/Saved.antt =====
-- tools/trust_store.py: what the slots hold after `save` has been written, whole or in part.
use c64_https.Common.{
  ℕ, ◌+◌, ◌%◌, ◌≤◌, ◌≡◌, refl, sym, ap, ◌∙◌, true, false, some, List, [], map, length, ◌==◌,
  if◌then◌else◌, ok, ok-pair, guard-eq-ok, >>=-eq-ok, arith,
}
use Prim.Native.Nat.{bit_xor}
use mathlib.Core.Path.{subst}
use c64_https.TrustStore.Hashlib.{Hash}
use c64_https.TrustStore.{Record, Host, of_record, host_key, encode, decode}
use c64_https.TrustStore.Codec.{stored}
use c64_https.TrustStore.Files.{decode→IsFile}
use c64_https.TrustStore.RoundTrip.{decode-encode}
use c64_https.TrustStore.Serial.{serial_newer-next, serial_newer_swap}
use c64_https.TrustStore.Slots.{
  Slot, content, State, st_valid, st_empty, Selection, valid, empty, slot_result, select, is_ready,
  iterated, put_record, find_key, lookup, save,
}
use c64_https.TrustStore.Slots.Choice.{IsHonest, select_both, select_first}
use c64_https.TrustStore.Slots.Safety.{Took, first, second, select-Took, select-empty}
use c64_https.TrustStore.Slots.Records.{encode-IsPackable, unpack_all-stored, length-unpack_all}

-- The slots after `bytes` has been written to slot `target`.
abbrev pub write_slot : ℕ → List ℕ → Slot → Slot → Slot × Slot
write_slot target bytes a b = if target == 0 then (content bytes, b) else (a, content bytes)

module _ (sha : Hash) where
  -- The values that a successful `save` goes through.
  pub record Steps (a b : Slot) (host : Host) (r : Record) (target : ℕ) (file : List ℕ)
      : Type 0 where
    pub sel : Selection
    pub key : List ℕ
    pub old : List Record
    pub recs : List Record
    pub selected : select sha a b ≡ ok sel
    pub ready : is_ready sel.state ≡ true
    pub keyed : host_key sha host ≡ ok key
    pub listed : iterated sel.records ≡ ok old
    pub put : put_record (record r { key = key }) old ≡ ok recs
    pub encoded : encode sha ((sel.gen + 1) % 65536) (map of_record recs) ≡ ok file
    pub targeted : bit_xor sel.slot 1 ≡ target

  pub save-Steps :
      (a b : Slot) (host : Host) (r : Record) (target : ℕ) (file : List ℕ)
      → save sha a b host r ≡ ok (target, file)
      → Steps a b host r target file
  unfolding save
  save-Steps a b host r target file h =
      let (sel, es, h1) = >>=-eq-ok (select sha a b) _ h in
      let (t, h2) = guard-eq-ok (is_ready sel.state) _ _ h1 in
      let (key, ek, h3) = >>=-eq-ok (host_key sha host) _ h2 in
      let (old, eo, h4) = >>=-eq-ok (iterated sel.records) _ h3 in
      let (recs, ep, h5) = >>=-eq-ok (put_record (record r { key = key }) old) _ h4 in
      let (f, ef, h6) = >>=-eq-ok (encode sha ((sel.gen + 1) % 65536) (map of_record recs)) _ h5 in
      let (et, efile) = ok-pair (bit_xor sel.slot 1) target f file h6 in
      record {
        sel = sel;
        key = key;
        old = old;
        recs = recs;
        selected = es;
        ready = t;
        keyed = ek;
        listed = eo;
        put = ep;
        encoded = ef ∙ ap ok efile;
        targeted = et;
      }

  -- The file that `save` returns decodes to the next generation and the records that were put.
  pub saved_file :
      (gen : ℕ) (recs : List Record) (file : List ℕ)
      → length recs ≤ 32
      → encode sha ((gen + 1) % 65536) (map of_record recs) ≡ ok file
      → decode sha file ≡ ok ((gen + 1) % 65536, map stored recs)
  saved_file gen recs file room e =
      let all = encode-IsPackable sha ((gen + 1) % 65536) recs file e in
      let (f, ef, ed) = decode-encode sha ((gen + 1) % 65536) recs all room in
      let same : f ≡ file = cc (ef, e) in
      let small : (gen + 1) % 65536 % 65536 ≡ (gen + 1) % 65536 = omega arith in
      ap (decode sha) (sym same) ∙ ed ∙ ap (λ g. ok (g, map stored recs)) small

  -- The records of a file that decodes: at most 32, and unchanged by storing them again.
  pub decoded_records :
      (file : List ℕ) (gen : ℕ) (recs : List Record)
      → decode sha file ≡ ok (gen, recs)
      → (length recs ≤ 32) × (map stored recs ≡ recs)
  decoded_records file gen recs e =
      let (n, f) = decode→IsFile sha file gen recs e in
      (
        omega (arith, length-unpack_all 0 n file recs f.recs_at, f.room),
        unpack_all-stored 0 n file recs (omega (arith, f.len)) f.recs_at,
      )

  chosen_second :
      (a : Slot) (f file : List ℕ) (g : ℕ) (rs recs : List Record)
      → a ≡ content f
      → decode sha f ≡ ok (g, rs)
      → decode sha file ≡ ok ((g + 1) % 65536, recs)
      → select sha a (content file) ≡ ok (valid 1 ((g + 1) % 65536, recs) (0, 0))
  chosen_second a f file g rs recs ea ef e = rw ea (
      select_both sha f file (g, rs) ((g + 1) % 65536, recs) (some true) ef e (serial_newer-next g))

  chosen_first :
      (b : Slot) (f file : List ℕ) (g : ℕ) (rs recs : List Record)
      → b ≡ content f
      → decode sha f ≡ ok (g, rs)
      → decode sha file ≡ ok ((g + 1) % 65536, recs)
      → select sha (content file) b ≡ ok (valid 0 ((g + 1) % 65536, recs) (0, 0))
  chosen_first b f file g rs recs eb ef e = rw eb (
      select_both sha file f ((g + 1) % 65536, recs) (g, rs) (some false) e ef
        ((serial_newer_swap g ((g + 1) % 65536)).0.0 (serial_newer-next g)))

  -- What a selection that `save` goes on from says of its records, and what `select` gives once the
  -- target slot holds a file of the next generation.
  pub record Next (a b : Slot) (sel : Selection) (old : List Record) : Type 0 where
    pub few : length old ≤ 32
    pub kept : map stored old ≡ old
    pub looked :
        (other : Host) (k : List ℕ)
        → host_key sha other ≡ ok k
        → lookup sha sel other ≡ ok (find_key k old)
    pub chosen :
        (target : ℕ) (file : List ℕ) (recs : List Record)
        → bit_xor sel.slot 1 ≡ target
        → decode sha file ≡ ok ((sel.gen + 1) % 65536, recs)
        → (st : ℕ × ℕ) × (select sha (write_slot target file a b).0 (write_slot target file a b).1
            ≡ ok (valid target ((sel.gen + 1) % 65536, recs) st))

  first-Next :
      (a b : Slot) (f : List ℕ) (g : ℕ) (rs : List Record) (st : ℕ × ℕ)
      → a ≡ content f
      → decode sha f ≡ ok (g, rs)
      → Next a b (valid 0 (g, rs) st) rs
  unfolding lookup
  first-Next a b f g rs st ea ed =
      let (few, kept) = decoded_records f g rs ed in
      record {
        few = few;
        kept = kept;
        looked = λ other k ek. rw ek;
        chosen = λ target file recs et dec.
            ((0, 0), rw (← et) (chosen_second a f file g rs recs ea ed dec));
      }

  second-Next :
      (a b : Slot) (f : List ℕ) (g : ℕ) (rs : List Record) (st : ℕ × ℕ)
      → b ≡ content f
      → decode sha f ≡ ok (g, rs)
      → Next a b (valid 1 (g, rs) st) rs
  unfolding lookup
  second-Next a b f g rs st eb ed =
      let (few, kept) = decoded_records f g rs ed in
      record {
        few = few;
        kept = kept;
        looked = λ other k ek. rw ek;
        chosen = λ target file recs et dec.
            ((0, 0), rw (← et) (chosen_first b f file g rs recs eb ed dec));
      }

  empty-Next : (a b : Slot) → slot_result sha b ≡ ok 1 → Next a b (empty (1, 1)) []
  unfolding lookup find_key
  empty-Next a b eb = record {
    few = omega arith;
    kept = refl;
    looked = λ other k ek. refl;
    chosen = λ target file recs et dec.
        ((0, 1), rw (← et) (select_first sha file (1, recs) b 1 dec eb (omega arith)));
  }

  -- `iterated` of a selection that lists its records.
  iterated-some : (rs old : List Record) → iterated (some rs) ≡ ok old → rs ≡ old
  iterated-some rs old h = cc

  Took-Next :
      (a b : Slot) (sel : Selection) (old : List Record)
      → Took sha a b sel
      → iterated sel.records ≡ ok old
      → Next a b sel old
  Took-Next a b sel old (first f (g, rs) st ea ed es _) h =
      let eo : rs ≡ old = iterated-some rs old (ap (λ s. iterated s.records) (sym es) ∙ h) in
      subst (Next a b sel) eo (subst (λ s. Next a b s rs) (sym es) (first-Next a b f g rs st ea ed))
  Took-Next a b sel old (second f (g, rs) st eb ed es _) h =
      let eo : rs ≡ old = iterated-some rs old (ap (λ s. iterated s.records) (sym es) ∙ h) in
      subst (Next a b sel) eo
        (subst (λ s. Next a b s rs) (sym es) (second-Next a b f g rs st eb ed))

  pub ready-Next :
      (a b : Slot) (sel : Selection) (old : List Record) (state : State)
      → IsHonest a
      → IsHonest b
      → select sha a b ≡ ok sel
      → iterated sel.records ≡ ok old
      → sel.state ≡ state
      → is_ready state ≡ true
      → Next a b sel old
  ready-Next a b sel old st_valid ha hb h l es t =
      Took-Next a b sel old (select-Took sha a b sel ha hb h es) l
  ready-Next a b sel old st_empty ha hb h l es t =
      let (eb, e) = select-empty sha a b sel ha hb h es in
      let eo : [] ≡ old = iterated-some [] old (ap (λ s. iterated s.records) (sym e) ∙ l) in
      subst (Next a b sel) eo (subst (λ s. Next a b s []) (sym e) (empty-Next a b eb))
  ready-Next a b sel old _ ha hb h l es t = cc
