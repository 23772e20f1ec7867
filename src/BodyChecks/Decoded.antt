-- ===== src/BodyChecks/Decoded.antt =====
-- tools/http_body_checks.py: `decode_body_state` on what was read, short or whole.
use c64_https.Common.{
  ℕ, ◌^◌, ◌<◌, ◌≡◌, ◌≢◌, refl, inl, inr, some, List, ◌∷◌, length, Option-cases, guard-eq-ok,
  >>=-eq-ok, ok, key_error, arith,
}
use c64_https.Common.Bytes.{le_bytes, from_le-le_bytes, length-le_bytes}
use c64_https.BodyChecks.{
  BodyState, Symbol, RawReads, width, symbols, decode_body_state, all_present, check_widths,
  optional, http_parse_state, http_status_code, http_cl_valid, http_content_length, http_body_total,
  http_chunked, http_chunk_state, http_sink_full,
}

-- The value of each symbol in a state.
abbrev pub field : BodyState → Symbol → ℕ
field st http_parse_state = st.parse_state
field st http_status_code = st.status
field st http_cl_valid = st.cl_valid
field st http_content_length = st.content_length
field st http_body_total = st.body_total
field st http_chunked = st.chunked
field st http_chunk_state = st.chunk_state
field st http_sink_full = st.sink_full

-- The bytes of the machine's memory that hold a state.
abbrev pub memory : BodyState → RawReads
memory st s = some (le_bytes (width s) (field st s))

-- Reading the memory of a state whose values fit their symbols gives that state back.
pub decode-memory :
    (st : BodyState)
    → ((s : Symbol) → field st s < 256 ^ width s)
    → decode_body_state (memory st) ≡ ok st
unfolding decode_body_state all_present check_widths optional
decode-memory st fits =
    let back = λ (s : Symbol). from_le-le_bytes (width s) (field st s) (fits s) in
    simp length-le_bytes (λ i. ok (record {
      parse_state = back http_parse_state i;
      status = back http_status_code i;
      cl_valid = back http_cl_valid i;
      content_length = back http_content_length i;
      body_total = back http_body_total i;
      chunked = back http_chunked i;
      chunk_state = back http_chunk_state i;
      sink_full = back http_sink_full i;
    }))

-- What a check of the widths has seen of one of its symbols.
data In (s : Symbol) : List Symbol → Type 0 where
  here : {ss : List Symbol} → In s (s ∷ ss)
  there : {t : Symbol} {ss : List Symbol} → In s ss → In s (t ∷ ss)

widths_seen :
    (raw : RawReads) (s : Symbol) (ss : List Symbol) (bs : List ℕ)
    → In s ss
    → raw s ≡ some bs
    → check_widths raw ss ≡ ok tt
    → length bs ≡ width s
unfolding check_widths
widths_seen raw s _ bs here e h = ground (arith, e)
widths_seen raw s _ bs (there {t} {ss} i) e h = elim (Option-cases (raw t)) [
  | inl n ↦ absurd (ground (arith, n))
  | inr (cs, n) ↦ widths_seen raw s ss bs i e (ground (arith, n))
]

place : (s : Symbol) → s ≢ http_sink_full → In s symbols
place http_parse_state h = here
place http_status_code h = there here
place http_cl_valid h = there (there here)
place http_content_length h = there (there (there here))
place http_body_total h = there (there (there (there here)))
place http_chunked h = there (there (there (there (there here))))
place http_chunk_state h = there (there (there (there (there (there here)))))
place http_sink_full h = absurd (h refl)

widths_checked :
    (raw : RawReads) (st : BodyState)
    → decode_body_state raw ≡ ok st
    → check_widths raw symbols ≡ ok tt
unfolding decode_body_state
widths_checked raw st h =
    let (_, h1) = guard-eq-ok (all_present raw symbols) key_error _ h in
    let (u, e, _) = >>=-eq-ok (check_widths raw symbols) _ h1 in e

-- A read that is shorter or longer than its symbol, other than the optional one, never decodes.
pub decode-short :
    (raw : RawReads) (s : Symbol) (bs : List ℕ) (st : BodyState)
    → s ≢ http_sink_full
    → raw s ≡ some bs
    → length bs ≢ width s
    → decode_body_state raw ≢ ok st
decode-short raw s bs st req e short h =
    short (widths_seen raw s symbols bs (place s req) e (widths_checked raw st h))
