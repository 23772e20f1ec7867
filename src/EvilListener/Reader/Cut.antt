-- ===== src/EvilListener/Reader/Cut.antt =====
-- tools/https_e2e/evil_listener.py: `RecordReader` reads the same records however the stream is cut.
use c64_https.Common.{
  ℕ, zero, suc, ◌+◌, ◌≤◌, true, false, Option, none, some, some-injective, Option-cases, true≢false,
  take-append_le, leb→le, ok, List, [], ◌∷◌, ◌++◌, length, length-append, take, take_all, drop_all,
  raised, drop, slice, All, leb, is_nil, ok, ◌≡◌, refl, sym, ap, ◌∙◌, arith, Bool-cases, inl, inr,
}
use mathlib.Core.List.{append_assoc, append-nil}
use c64_https.Common.Bytes.{from_be}
use c64_https.HardwareChecks.Positions.{slice-append_le, drop-append_le}
use c64_https.EvilListener.Framing.{concatenated}
use c64_https.EvilListener.Reader.{
  Arrival, chunk, RecordReader, first_record, receive, Received, read_record,
}

-- A record has a header of five bytes, the last two of which are the length of what follows.
abbrev pub IsRecord : List ℕ → Type 0
IsRecord rec = (5 ≤ length rec) × (length rec ≡ 5 + from_be (slice 3 5 rec))

-- The chunks of a stream, none of which is empty.
abbrev pub arrivals : List (List ℕ) → List Arrival
arrivals [] = []
arrivals (c ∷ cs) = chunk c ∷ arrivals cs

abbrev pub IsChunk : List ℕ → Type 0
IsChunk c = is_nil c ≡ false

-- What comes of a call, and of the calls after it.
abbrev pub Records : Type 0
Records = Option (List (List ℕ) × RecordReader)

abbrev pub add_record : List ℕ → Records → Records
add_record rec none = none
add_record rec (some r) = some (rec ∷ r.0, r.1)

abbrev pub when_read : Received → (RecordReader → Records) → Records
when_read (ok (some rec), next) others = add_record rec (others next)
when_read (ok none, next) others = none
when_read (raised fault, next) others = none

-- `n` calls in a row, each of which returns a record.
unfoldable pub read_records : ℕ → RecordReader → Records
read_records zero reader = some ([], reader)
read_records (suc n) reader = when_read (read_record reader) (read_records n)

module _ (buf c : List ℕ) where
  abbrev body : ℕ
  body = from_be (slice 3 5 buf)

  -- A complete record stays one when more comes in.
  first_record-append :
      (r : List ℕ × List ℕ)
      → first_record buf ≡ some r
      → first_record (buf ++ c) ≡ some (r.0, r.1 ++ c)
  unfolding first_record
  first_record-append r h = elim (Bool-cases (leb 5 (length buf))) [
    | inr short ↦ absurd (let e : none ≡ some r = rw (first_record, short) at h in cc)
    | inl long ↦ elim (Bool-cases (leb (5 + body) (length buf))) [
      | inr part ↦ absurd (let e : none ≡ some r = rw (first_record, long, part) at h in cc)
      | inl whole ↦
          let got : (take (5 + body) buf, drop (5 + body) buf) ≡ r =
            some-injective (rw (first_record, long, whole) at h) in
          let n = length-append buf c in
          let long' : leb 5 (length (buf ++ c)) ≡ true = ground arith in
          let same : from_be (slice 3 5 (buf ++ c)) ≡ body =
            ap from_be (slice-append_le 3 2 buf c (leb→le 5 (length buf) long)) in
          let whole' : leb (5 + body) (length (buf ++ c)) ≡ true = ground arith in
          let le = leb→le (5 + body) (length buf) whole in
          rw
            (
              first_record,
              same,
              long',
              whole',
              take-append_le (5 + body) buf c le,
              drop-append_le (5 + body) buf c le,
              ← got,
            )
            refl
    ]
  ]

first_record-record :
    (rec more : List ℕ) → IsRecord rec → first_record (rec ++ more) ≡ some (rec, more)
unfolding first_record
first_record-record rec more h =
    let n : ℕ = from_be (slice 3 5 rec) in
    let long : leb 5 (length rec) ≡ true = ground arith in
    let whole : leb (5 + n) (length rec) ≡ true = ground arith in
    let alone : first_record rec ≡ some (rec, []) =
      rw
        (
          first_record,
          long,
          whole,
          take_all (5 + n) rec (omega arith),
          drop_all (5 + n) rec (omega arith),
        )
        refl in
    first_record-append rec more (rec, []) alone

-- A call returns the first record of what is buffered and still to come, and leaves the rest.
receive-first :
    (buf : List ℕ) (cs : List (List ℕ)) (rec rest : List ℕ)
    → All IsChunk cs
    → first_record (buf ++ concatenated cs) ≡ some (rec, rest)
    → (buf' : List ℕ) × (cs' : List (List ℕ)) × (receive buf (arrivals cs)
        ≡ (ok (some rec), record { buf = buf'; left = arrivals cs' }))
      × (buf' ++ concatenated cs' ≡ rest)
      × All IsChunk cs'
unfolding receive concatenated is_nil
receive-first buf [] rec rest a h =
    let e : first_record buf ≡ some (rec, rest) = rw (append-nil buf) at h in
    (rest, [], rw (receive, e) refl, append-nil rest, tt)
receive-first buf ([] ∷ cs) rec rest a h = absurd (true≢false a.0)
receive-first buf ((b ∷ bs) ∷ cs) rec rest a h = elim (Option-cases (first_record buf)) [
  | inl e ↦
      let whole : first_record ((buf ++ (b ∷ bs)) ++ concatenated cs) ≡ some (rec, rest) =
        ap first_record (append_assoc buf (b ∷ bs) (concatenated cs)) ∙ h in
      rw (receive, e) (receive-first (buf ++ (b ∷ bs)) cs rec rest a.1 whole)
  | inr (r, e) ↦
      let same : (r.0, r.1 ++ ((b ∷ bs) ++ concatenated cs)) ≡ (rec, rest) =
        some-injective (sym (first_record-append buf ((b ∷ bs) ++ concatenated cs) r e) ∙ h) in
      (
        r.1,
        (b ∷ bs) ∷ cs,
        rw (receive, e)
            (ap {B = Received}
              (λ x. (ok (some x), record { buf = r.1; left = chunk (b ∷ bs) ∷ arrivals cs }))
              (ap (λ q. q.0) same)),
        ap (λ q. q.1) same,
        a,
      )
]

-- One call, where the next record is there, however it is cut.
pub receive-cut :
    (rec rest buf : List ℕ) (cs : List (List ℕ))
    → IsRecord rec
    → All IsChunk cs
    → buf ++ concatenated cs ≡ rec ++ rest
    → (buf' : List ℕ) × (cs' : List (List ℕ)) × (receive buf (arrivals cs)
        ≡ (ok (some rec), record { buf = buf'; left = arrivals cs' }))
      × (buf' ++ concatenated cs' ≡ rest)
      × All IsChunk cs'
receive-cut rec rest buf cs v a h =
    receive-first buf cs rec rest a (ap first_record h ∙ first_record-record rec rest v)

-- A stream of records, of which some bytes may be in the buffer already and the others come in any
-- chunks that are not empty, is read record by record; what stands behind the records is left.
pub read_records-cut :
    (rs : List (List ℕ)) (buf : List ℕ) (cs : List (List ℕ)) (tail : List ℕ)
    → All IsRecord rs
    → All IsChunk cs
    → buf ++ concatenated cs ≡ concatenated rs ++ tail
    → (buf' : List ℕ) × (cs' : List (List ℕ)) × (read_records
          (length rs)
          (record { buf = buf; left = arrivals cs })
        ≡ some (rs, record { buf = buf'; left = arrivals cs' }))
      × (buf' ++ concatenated cs' ≡ tail)
unfolding read_records concatenated
read_records-cut [] buf cs tail v a h = (buf, cs, refl, h)
read_records-cut (rec ∷ rs) buf cs tail v a h =
    let one =
      receive-cut rec (concatenated rs ++ tail) buf cs v.0 a
        (h ∙ append_assoc rec (concatenated rs) tail) in
    let others = read_records-cut rs one.0 one.1 tail v.1 one.4 one.3 in
    (others.0, others.1, rw (read_records, one.2, others.2) refl, others.3)
