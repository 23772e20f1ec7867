-- ===== src/BodyChecks.antt =====
-- tools/http_body_checks.py: the client's parser state read over DMA, and the checks on it.
pub mod Verdicts
pub mod Seconds
pub mod Exit
pub mod Stops
pub mod Complete
pub mod Decoded
use c64_https.Common.{
  ℕ, ◌-◌, Bool, true, false, not, ◌&&◌, ◌||◌, Option, none, some, List, [], ◌∷◌, length, ltb, leb,
  ◌==◌, if◌then◌else◌, Result, ok, raised, ◌>>=◌, ◌>>◌, guard, value_error, key_error,
}
use c64_https.Common.Bytes.{from_le}
use Verdicts.{
  Verdict, passing, failing, unsure, refused, no_body, complete, truncated, over_read,
  terminal_chunk, chunk_missing, unframed, http_status, still_growing, settled, kex_unread,
  kex_other, kex_matches,
}

abbrev pub parse_state_body : ℕ
parse_state_body = 2

abbrev pub chunk_state_terminal : ℕ
chunk_state_terminal = 4

-- The keys of SYMBOLS and of OPTIONAL_SYMBOLS.
pub data Symbol : Type 0 where
  http_parse_state http_status_code http_cl_valid http_content_length http_body_total : Symbol
  http_chunked http_chunk_state http_sink_full : Symbol

abbrev pub width : Symbol → ℕ
width http_parse_state = 1
width http_status_code = 2
width http_cl_valid = 1
width http_content_length = 3
width http_body_total = 3
width http_chunked = 1
width http_chunk_state = 1
width http_sink_full = 1

-- SYMBOLS, in its order
abbrev pub symbols : List Symbol
symbols =
    http_parse_state ∷ http_status_code ∷ http_cl_valid ∷ http_content_length ∷ http_body_total
    ∷ http_chunked ∷ http_chunk_state ∷ []

pub record BodyState : Type 0 where
  pub parse_state : ℕ
  pub status : ℕ
  pub cl_valid : ℕ
  pub content_length : ℕ
  pub body_total : ℕ
  pub chunked : ℕ
  pub chunk_state : ℕ
  pub sink_full : ℕ

-- What was read for each symbol: a dict from names to bytes.
abbrev pub RawReads : Type 0
RawReads = Symbol → Option (List ℕ)

unfoldable pub all_present : RawReads → List Symbol → Bool
all_present raw [] = true
all_present raw (s ∷ ss) = elim (raw s) [ none ↦ false | some _ ↦ all_present raw ss ]

-- The loop over SYMBOLS that checks the widths, once no name is missing.
unfoldable pub check_widths : RawReads → List Symbol → Result (Unit {0})
check_widths raw [] = ok tt
check_widths raw (s ∷ ss) = elim (raw s) [
  | none ↦ raised key_error
  | some bs ↦ guard (length bs == width s) value_error >> check_widths raw ss
]

-- _le(raw[name])
abbrev pub value : RawReads → Symbol → Result ℕ
value raw s = elim (raw s) [ none ↦ raised key_error | some bs ↦ ok (from_le bs) ]

unfoldable pub optional : RawReads → Symbol → Result ℕ
optional raw s = elim (raw s) [
  | none ↦ ok 0
  | some bs ↦ guard (length bs == width s) value_error >> ok (from_le bs)
]

unfoldable pub decode_body_state : RawReads → Result BodyState
decode_body_state raw = do
  guard (all_present raw symbols) key_error
  check_widths raw symbols
  parse_state ← value raw http_parse_state
  status ← value raw http_status_code
  cl_valid ← value raw http_cl_valid
  content_length ← value raw http_content_length
  body_total ← value raw http_body_total
  chunked ← value raw http_chunked
  chunk_state ← value raw http_chunk_state
  sink_full ← optional raw http_sink_full
  ok (record {
    parse_state = parse_state;
    status = status;
    cl_valid = cl_valid;
    content_length = content_length;
    body_total = body_total;
    chunked = chunked;
    chunk_state = chunk_state;
    sink_full = sink_full;
  })

-- A number used as a truth value.
abbrev pub truthy : ℕ → Bool
truthy n = not (n == 0)

unfoldable pub expected_body_size : BodyState → Option ℕ
expected_body_size st = if truthy st.cl_valid then some st.content_length else none

unfoldable pub check_http_status : BodyState → ℕ → Verdict
check_http_status st expect =
    if ltb st.parse_state parse_state_body
    then failing no_body
    else if not (st.status == expect)
    then failing http_status
    else passing http_status

unfoldable pub check_body_complete : BodyState → Verdict
check_body_complete st =
    if truthy st.sink_full
    then failing refused
    else if ltb st.parse_state parse_state_body
    then failing no_body
    else if truthy st.cl_valid
    then (if st.body_total == st.content_length
        then passing complete
        else if ltb st.body_total st.content_length
        then failing (truncated (st.content_length - st.body_total))
        else failing over_read)
    else if truthy st.chunked
    then (if st.chunk_state == chunk_state_terminal
        then passing terminal_chunk
        else failing chunk_missing)
    else unsure unframed

-- check_fetch_settled(progressing, elapsed, budget), whose last two arguments are only reported
unfoldable pub check_fetch_settled : Bool → Verdict
check_fetch_settled progressing = if progressing then unsure still_growing else passing settled

-- check_kex_group(kex, required), where None is a group that could not be read
unfoldable pub check_kex_group : Option ℕ → ℕ → Verdict
check_kex_group none required = failing kex_unread
check_kex_group (some kex) required =
    if not (kex == required) then failing kex_other else passing kex_matches
