-- ===== src/TrustStore/Slots/Choice.antt =====
-- tools/trust_store.py: which slot `select` takes.
use c64_https.Common.{
  ℕ, ◌≡◌, ◌≢◌, refl, Bool, true, false, Option, none, some, List, ◌==◌, ◌&&◌, if◌then◌else◌, Result,
  ok, arith,
}
use c64_https.TrustStore.Hashlib.{Hash}
use c64_https.TrustStore.{Record, decode, r_tie}
use c64_https.TrustStore.Refusals.{
  Outcome, decoded, refused_format, refused_version, refused_checksum, decode-Outcome,
}
use c64_https.TrustStore.Slots.{
  Slot, absent, open_failure, content, Selection, valid, failed, empty, tolerable, serial_newer,
  slot_result, choose, select,
}

-- An open failure is reported by a code other than that of success.
abbrev pub IsHonest : Slot → Type 0
IsHonest (open_failure code) = code ≢ 0
IsHonest _ = Unit {0}

-- The choice between two files that both decode.
abbrev pub by_age : Option Bool → ℕ × List Record → ℕ × List Record → Selection
by_age none a b = failed r_tie (0, 0)
by_age (some true) a b = valid 1 b (0, 0)
by_age (some false) a b = valid 0 a (0, 0)

module _ (sha : Hash) where
  -- What is known of a slot once `slot_result` has looked at it.
  pub data Looked (s : Slot) : Type 0 where
    readable :
        (file : List ℕ) (d : ℕ × List Record) → s ≡ content file → decode sha file ≡ ok d → Looked s
    unreadable : (c : ℕ) → c ≢ 0 → slot_result sha s ≡ ok c → Looked s

  file-Looked :
      (file : List ℕ) (r : Result (ℕ × List Record))
      → decode sha file ≡ r
      → Outcome r
      → Looked (content file)
  unfolding slot_result
  file-Looked file r e (decoded d) = readable file d refl e
  file-Looked file r e refused_format = unreadable 5 (omega arith) (rw e)
  file-Looked file r e refused_version = unreadable 6 (omega arith) (rw e)
  file-Looked file r e refused_checksum = unreadable 7 (omega arith) (rw e)

  pub look : (s : Slot) → IsHonest s → Looked s
  unfolding slot_result
  look absent h = unreadable 1 (omega arith) refl
  look (open_failure code) h = unreadable code h refl
  look (content file) h = file-Looked file (decode sha file) refl (decode-Outcome sha file)

  pub slot_result_file :
      (file : List ℕ) (d : ℕ × List Record)
      → decode sha file ≡ ok d
      → slot_result sha (content file) ≡ ok 0
  unfolding slot_result
  slot_result_file file d e = rw e

  pub select_both :
      (fa fb : List ℕ) (a b : ℕ × List Record) (newer : Option Bool)
      → decode sha fa ≡ ok a
      → decode sha fb ≡ ok b
      → serial_newer a.0 b.0 ≡ newer
      → select sha (content fa) (content fb) ≡ ok (by_age newer a b)
  unfolding select choose
  select_both fa fb a b none ea eb en =
      rw (slot_result_file fa a ea, slot_result_file fb b eb, ea, eb) (rw en)
  select_both fa fb a b (some true) ea eb en =
      rw (slot_result_file fa a ea, slot_result_file fb b eb, ea, eb) (rw en (rw eb))
  select_both fa fb a b (some false) ea eb en =
      rw (slot_result_file fa a ea, slot_result_file fb b eb, ea, eb) (rw en (rw ea))

  pub select_first :
      (file : List ℕ) (d : ℕ × List Record) (other : Slot) (c : ℕ)
      → decode sha file ≡ ok d
      → slot_result sha other ≡ ok c
      → c ≢ 0
      → select sha (content file) other
        ≡ ok (if tolerable c then valid 0 d (0, c) else failed c (0, c))
  unfolding select choose
  select_first file d other c e ec h = rw (slot_result_file file d e, ec, e) (ground arith)

  pub select_second :
      (file : List ℕ) (d : ℕ × List Record) (other : Slot) (c : ℕ)
      → decode sha file ≡ ok d
      → slot_result sha other ≡ ok c
      → c ≢ 0
      → select sha other (content file)
        ≡ ok (if tolerable c then valid 1 d (c, 0) else failed c (c, 0))
  unfolding select choose
  select_second file d other c e ec h = rw (slot_result_file file d e, ec, e) (ground arith)

  pub select_neither :
      (a b : Slot) (ca cb : ℕ)
      → slot_result sha a ≡ ok ca
      → slot_result sha b ≡ ok cb
      → ca ≢ 0
      → cb ≢ 0
      → select sha a b
        ≡ ok (
            if ca == 1 && cb == 1
            then empty (ca, cb)
            else failed (if ca == 1 then cb else ca) (ca, cb))
  unfolding select choose
  select_neither a b ca cb ea eb ha hb = rw (ea, eb) (ground arith)
