-- ===== src/EvilListener/Framing.antt =====
-- tools/https_e2e/evil_listener.py: `frame_handshake_stream`, which cuts the content stream of the
-- handshake into the payloads of records.
pub mod Fragments
use c64_https.Common.{
  ℕ, zero, suc, ◌+◌, ◌-◌, ◌*◌, ◌%◌, ◌≤◌, ◌<◌, min, Bool, true, false, List, [], ◌∷◌, ◌++◌, length,
  length-take, length-drop, take, drop, take-append-drop, drop-drop, drop_all, All, ltb, get_or,
  is_nil, if◌then◌else◌, Result, ok, raised, value_error, ◌≡◌, refl, sym, ap, ◌∙◌, ◌≢◌, arith,
  Bool-cases, inl, inr, ltb→lt, true≢false, if_both, leb, ◌&&◌, all_below, all_below_lem, and_true,
  leb→le,
}
use c64_https.EvilListener.{RecordFrame, onepermsg, mfl512, pathological}

-- The fragments from the stream's place `pos` on, the `i`-th of which asks for `size i` bytes:
-- stream[pos:pos + size]. A round takes one byte at least, where no size is 0.
unfoldable pub cut_from : (ℕ → ℕ) → ℕ → ℕ → ℕ → List ℕ → List (List ℕ)
cut_from size zero i pos stream = []
cut_from size (suc fuel) i pos stream =
    let rest = cut_from size fuel (i + 1) (pos + size i) stream in
    if ltb pos (length stream) then take (size i) (drop pos stream) ∷ rest else []

-- fragments or [b""]
abbrev pub or_empty_one : List (List ℕ) → List (List ℕ)
or_empty_one [] = [] ∷ []
or_empty_one (f ∷ fs) = f ∷ fs

abbrev pub pattern : List ℕ
pattern = 1 ∷ 2 ∷ 3 ∷ 1 ∷ 250 ∷ 7 ∷ 511 ∷ 13 ∷ 400 ∷ 1 ∷ []

-- pattern[i % len(pattern)]
abbrev pub pattern_size : ℕ → ℕ
pattern_size i = get_or pattern (i % 10) 0

unfoldable pub frame_handshake_stream : List ℕ → RecordFrame → Result (List (List ℕ))
frame_handshake_stream stream mfl512 =
    ok (or_empty_one (cut_from (λ i. 512) (length stream) 0 0 stream))
frame_handshake_stream stream pathological =
    ok (or_empty_one (cut_from pattern_size (length stream) 0 0 stream))
frame_handshake_stream stream onepermsg = raised value_error

-- b"".join(fragments)
unfoldable pub concatenated : List (List ℕ) → List ℕ
concatenated [] = []
concatenated (f ∷ fs) = f ++ concatenated fs
