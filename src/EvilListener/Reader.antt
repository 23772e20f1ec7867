-- ===== src/EvilListener/Reader.antt =====
-- tools/https_e2e/evil_listener.py: `RecordReader`. The socket is the sequence of what its `recv` gives:
-- some bytes, none where the peer has closed, or nothing up to the deadline.
pub mod Cut
use c64_https.Common.{
  ℕ, ◌+◌, Option, none, some, List, [], ◌∷◌, ◌++◌, length, take, drop, slice, leb, if◌then◌else◌,
  Result, ok, raised, timeout_error,
}
use c64_https.Common.Bytes.{from_be}

pub data Arrival : Type 0 where
  chunk : List ℕ → Arrival
  quiet : Arrival

-- `left` is what the socket will still give.
pub record RecordReader : Type 0 where
  pub buf : List ℕ
  pub left : List Arrival

-- The complete record at the start of the buffer, and what stands behind it.
unfoldable pub first_record : List ℕ → Option (List ℕ × List ℕ)
first_record buf =
    let len = from_be (slice 3 5 buf) in
    if leb 5 (length buf)
    then if leb (5 + len) (length buf) then some (take (5 + len) buf, drop (5 + len) buf) else none
    else none

-- What a call returns or raises, and the reader that it leaves.
abbrev pub Received : Type 0
Received = Result (Option (List ℕ)) × RecordReader

-- The loop. A sequence that has ended is a peer that sends nothing any more.
unfoldable pub receive : List ℕ → List Arrival → Received
receive buf [] = elim (first_record buf) [
  | some r ↦ (ok (some r.0), record { buf = r.1; left = [] })
  | none ↦ (raised timeout_error, record { buf = buf; left = [] })
]
receive buf (quiet ∷ left) = elim (first_record buf) [
  | some r ↦ (ok (some r.0), record { buf = r.1; left = quiet ∷ left })
  | none ↦ (raised timeout_error, record { buf = buf; left = left })
]
receive buf (chunk [] ∷ left) = elim (first_record buf) [
  | some r ↦ (ok (some r.0), record { buf = r.1; left = chunk [] ∷ left })
  | none ↦ (ok none, record { buf = buf; left = left })
]
receive buf (chunk (b ∷ bs) ∷ left) = elim (first_record buf) [
  | some r ↦ (ok (some r.0), record { buf = r.1; left = chunk (b ∷ bs) ∷ left })
  | none ↦ receive (buf ++ (b ∷ bs)) left
]

abbrev pub read_record : RecordReader → Received
read_record reader = receive reader.buf reader.left

unfoldable pub new_reader : List Arrival → RecordReader
new_reader left = record { buf = []; left = left }
