-- ===== src/TrustStore/Slots/Safety.antt =====
-- tools/trust_store.py: what can be relied on whatever the two slots of the store hold.
use c64_https.Common.{
  ℕ, ◌≡◌, ◌≢◌, refl, sym, ap, ◌∙◌, Bool, true, false, Option, none, some, List, ◌==◌, ◌&&◌,
  if◌then◌else◌, ok, ok-injective, arith,
}
use mathlib.Core.Path.{ap₂}
use c64_https.TrustStore.Hashlib.{Hash}
use c64_https.TrustStore.{Record, decode}
use c64_https.TrustStore.Serial.{serial_newer_swap}
use c64_https.TrustStore.Slots.{
  Slot, content, st_valid, st_empty, st_fail, Selection, valid, failed, empty, tolerable,
  serial_newer, slot_result, select,
}
use c64_https.TrustStore.Slots.Choice.{
  IsHonest, Looked, readable, unreadable, look, by_age, select_both, select_first, select_second,
  select_neither,
}

module _ (sha : Hash) where
  -- What may stand beside the slot that was taken, of generation `g`.
  pub data Beside (s : Slot) (g : ℕ) : Type 0 where
    torn : (c : ℕ) → slot_result sha s ≡ ok c → tolerable c ≡ true → Beside s g
    older :
        (file : List ℕ) (d : ℕ × List Record)
        → s ≡ content file
        → decode sha file ≡ ok d
        → serial_newer d.0 g ≡ some true
        → Beside s g

  -- `sel` holds what the file in one of the slots decodes to, and the other slot is not newer.
  pub data Took (a b : Slot) (sel : Selection) : Type 0 where
    first :
        (file : List ℕ) (d : ℕ × List Record) (st : ℕ × ℕ)
        → a ≡ content file
        → decode sha file ≡ ok d
        → sel ≡ valid 0 d st
        → Beside b d.0
        → Took a b sel
    second :
        (file : List ℕ) (d : ℕ × List Record) (st : ℕ × ℕ)
        → b ≡ content file
        → decode sha file ≡ ok d
        → sel ≡ valid 1 d st
        → Beside a d.0
        → Took a b sel

  aged-Took :
      (a b : Slot) (fa fb : List ℕ) (da db : ℕ × List Record) (newer : Option Bool)
      (sel : Selection)
      → a ≡ content fa
      → b ≡ content fb
      → decode sha fa ≡ ok da
      → decode sha fb ≡ ok db
      → serial_newer da.0 db.0 ≡ newer
      → by_age newer da db ≡ sel
      → sel.state ≡ st_valid
      → Took a b sel
  aged-Took a b fa fb da db none sel ea eb ha hb en es v = cc
  aged-Took a b fa fb da db (some true) sel ea eb ha hb en es v =
      second fb db (0, 0) eb hb (sym es) (older fa da ea ha en)
  aged-Took a b fa fb da db (some false) sel ea eb ha hb en es v =
      first fa da (0, 0) ea ha (sym es) (older fb db eb hb ((serial_newer_swap db.0 da.0).0.1 en))

  first-Took :
      (a b : Slot) (file : List ℕ) (d : ℕ × List Record) (c : ℕ) (t : Bool) (sel : Selection)
      → a ≡ content file
      → decode sha file ≡ ok d
      → slot_result sha b ≡ ok c
      → tolerable c ≡ t
      → (if t then valid 0 d (0, c) else failed c (0, c)) ≡ sel
      → sel.state ≡ st_valid
      → Took a b sel
  first-Took a b file d c true sel ea ha hb ht es v =
      first file d (0, c) ea ha (sym es) (torn c hb ht)
  first-Took a b file d c false sel ea ha hb ht es v = cc

  second-Took :
      (a b : Slot) (file : List ℕ) (d : ℕ × List Record) (c : ℕ) (t : Bool) (sel : Selection)
      → b ≡ content file
      → decode sha file ≡ ok d
      → slot_result sha a ≡ ok c
      → tolerable c ≡ t
      → (if t then valid 1 d (c, 0) else failed c (c, 0)) ≡ sel
      → sel.state ≡ st_valid
      → Took a b sel
  second-Took a b file d c true sel eb hb ha ht es v =
      second file d (c, 0) eb hb (sym es) (torn c ha ht)
  second-Took a b file d c false sel eb hb ha ht es v = cc

  neither_valid :
      (fresh : Bool) (e f sel : Selection)
      → (if fresh then e else f) ≡ sel
      → e.state ≡ st_empty
      → f.state ≡ st_fail
      → sel.state ≢ st_valid
  neither_valid true e f sel h he hf v = cc
  neither_valid false e f sel h he hf v = cc

  Took-if_valid :
      (a b : Slot) (sel : Selection)
      → Looked sha a
      → Looked sha b
      → select sha a b ≡ ok sel
      → sel.state ≡ st_valid
      → Took a b sel
  Took-if_valid a b sel (readable fa da ea ha) (readable fb db eb hb) h v =
      let e : select sha (content fa) (content fb) ≡ ok sel = rw (ea, eb) at h in
      let s = select_both sha fa fb da db (serial_newer da.0 db.0) ha hb refl in
      aged-Took a b fa fb da db (serial_newer da.0 db.0) sel ea eb ha hb refl
        (ok-injective _ _ (sym s ∙ e)) v
  Took-if_valid a b sel (readable fa da ea ha) (unreadable cb nb hb) h v =
      let e : select sha (content fa) b ≡ ok sel = rw ea at h in
      first-Took a b fa da cb (tolerable cb) sel ea ha hb refl
        (ok-injective _ _ (sym (select_first sha fa da b cb ha hb nb) ∙ e)) v
  Took-if_valid a b sel (unreadable ca na ha) (readable fb db eb hb) h v =
      let e : select sha a (content fb) ≡ ok sel = rw eb at h in
      second-Took a b fb db ca (tolerable ca) sel eb hb ha refl
        (ok-injective _ _ (sym (select_second sha fb db a ca hb ha na) ∙ e)) v
  Took-if_valid a b sel (unreadable ca na ha) (unreadable cb nb hb) h v = absurd (
      neither_valid (ca == 1 && cb == 1) _ _ sel
        (ok-injective _ _ (sym (select_neither sha a b ca cb ha hb na nb) ∙ h)) refl refl v)

  -- A selection that is valid holds the records of the file in its slot, and the other slot is a
  -- torn save, no file, or a file of an older generation. The codes of failures to open are other
  -- than that of success.
  pub select-Took :
      (a b : Slot) (sel : Selection)
      → IsHonest a
      → IsHonest b
      → select sha a b ≡ ok sel
      → sel.state ≡ st_valid
      → Took a b sel
  select-Took a b sel ha hb h v = Took-if_valid a b sel (look sha a ha) (look sha b hb) h v

  -- An open failure or a file of another version is never overlooked.
  blocked :
      (a b : Slot) (c : ℕ)
      → Looked sha b
      → slot_result sha a ≡ ok c
      → c ≢ 0
      → tolerable c ≡ false
      → ((s : Selection) × (select sha a b ≡ ok s) × (s.state ≡ st_fail))
        × ((s : Selection) × (select sha b a ≡ ok s) × (s.state ≡ st_fail))
  blocked a b c (readable fb db eb hb) ha n t = (
    (failed c (c, 0), rw eb (select_second sha fb db a c hb ha n ∙ rw t), refl),
    (failed c (0, c), rw eb (select_first sha fb db a c hb ha n ∙ rw t), refl),
  )
  blocked a b c (unreadable cb nb hb) ha n t = (
    (
      failed (if c == 1 then cb else c) (c, cb),
      select_neither sha a b c cb ha hb n nb ∙ ground arith,
      refl,
    ),
    (
      failed (if cb == 1 then c else cb) (cb, c),
      select_neither sha b a cb c hb ha nb n ∙ ground arith,
      refl,
    ),
  )

  -- Beside a slot whose failures to open have codes other than that of success, a slot that gives
  -- an error other than ABSENT, FORMAT and CHECKSUM fails the selection, wherever it stands.
  pub select-blocked :
      (a b : Slot) (c : ℕ)
      → IsHonest b
      → slot_result sha a ≡ ok c
      → c ≢ 0
      → tolerable c ≡ false
      → ((s : Selection) × (select sha a b ≡ ok s) × (s.state ≡ st_fail))
        × ((s : Selection) × (select sha b a ≡ ok s) × (s.state ≡ st_fail))
  select-blocked a b c hb = blocked a b c (look sha b hb)

  empty_of_if :
      (t : Bool) (e f sel : Selection)
      → (if t then e else f) ≡ sel
      → f.state ≡ st_fail
      → sel.state ≡ st_empty
      → (t ≡ true) × (sel ≡ e)
  empty_of_if true e f sel h hf v = (refl, sym h)
  empty_of_if false e f sel h hf v = cc

  not_empty_if :
      (t : Bool) (e f sel : Selection)
      → (if t then e else f) ≡ sel
      → e.state ≡ st_valid
      → f.state ≡ st_fail
      → sel.state ≢ st_empty
  not_empty_if true e f sel h he hf v = cc
  not_empty_if false e f sel h he hf v = cc

  not_empty_aged :
      (newer : Option Bool) (a b : ℕ × List Record) (sel : Selection)
      → by_age newer a b ≡ sel
      → sel.state ≢ st_empty
  not_empty_aged none a b sel h v = cc
  not_empty_aged (some true) a b sel h v = cc
  not_empty_aged (some false) a b sel h v = cc

  ones : (a b : ℕ) → (a == 1 && b == 1) ≡ true → (a ≡ 1) × (b ≡ 1)
  ones a b h = (ground arith, ground arith)

  empty_if :
      (a b : Slot) (sel : Selection)
      → Looked sha a
      → Looked sha b
      → select sha a b ≡ ok sel
      → sel.state ≡ st_empty
      → (slot_result sha b ≡ ok 1) × (sel ≡ empty (1, 1))
  empty_if a b sel (readable fa da ea ha) (readable fb db eb hb) h v =
      let e : select sha (content fa) (content fb) ≡ ok sel = rw (ea, eb) at h in
      let s = select_both sha fa fb da db (serial_newer da.0 db.0) ha hb refl in
      absurd (not_empty_aged (serial_newer da.0 db.0) da db sel (ok-injective _ _ (sym s ∙ e)) v)
  empty_if a b sel (readable fa da ea ha) (unreadable cb nb hb) h v =
      let e : select sha (content fa) b ≡ ok sel = rw ea at h in
      absurd (
        not_empty_if (tolerable cb) _ _ sel
          (ok-injective _ _ (sym (select_first sha fa da b cb ha hb nb) ∙ e)) refl refl v)
  empty_if a b sel (unreadable ca na ha) (readable fb db eb hb) h v =
      let e : select sha a (content fb) ≡ ok sel = rw eb at h in
      absurd (
        not_empty_if (tolerable ca) _ _ sel
          (ok-injective _ _ (sym (select_second sha fb db a ca hb ha na) ∙ e)) refl refl v)
  empty_if a b sel (unreadable ca na ha) (unreadable cb nb hb) h v =
      let (t, e) =
        empty_of_if (ca == 1 && cb == 1) _ _ sel
          (ok-injective _ _ (sym (select_neither sha a b ca cb ha hb na nb) ∙ h)) refl v in
      let (pa, pb) = ones ca cb t in (hb ∙ ap ok pb, e ∙ ap₂ (λ x y. empty (x, y)) pa pb)

  -- A selection of the empty store: neither slot has a file.
  pub select-empty :
      (a b : Slot) (sel : Selection)
      → IsHonest a
      → IsHonest b
      → select sha a b ≡ ok sel
      → sel.state ≡ st_empty
      → (slot_result sha b ≡ ok 1) × (sel ≡ empty (1, 1))
  select-empty a b sel ha hb = empty_if a b sel (look sha a ha) (look sha b hb)
