-- ===== src/EvilListener/Framing/Fragments.antt =====
-- tools/https_e2e/evil_listener.py: the fragments that `frame_handshake_stream` makes.
use c64_https.Common.{
  ℕ, zero, suc, ◌+◌, ◌%◌, ◌≤◌, ◌<◌, Bool, true, false, List, [], ◌∷◌, ◌++◌, length, length-take,
  length-drop, take, drop, take-append-drop, drop-drop, drop_all, All, ltb, get_or, is_nil, ok, ◌≡◌,
  refl, sym, ap, ◌∙◌, ◌≢◌, arith, Bool-cases, inl, inr, ltb→lt, true≢false, if_both, leb, ◌&&◌,
  all_below, all_below_lem, and_true, leb→le,
}
use c64_https.EvilListener.{RecordFrame, onepermsg, mfl512, pathological}
use c64_https.EvilListener.Framing.{
  cut_from, or_empty_one, pattern, pattern_size, frame_handshake_stream, concatenated,
}

-- What a client that keeps to the limit of 512 bytes takes.
abbrev pub IsFragment : List ℕ → Type 0
IsFragment f = (1 ≤ length f) × (length f ≤ 512)

module _ (size : ℕ → ℕ) (bounds : (i : ℕ) → (1 ≤ size i) × (size i ≤ 512)) where
  concatenated-cut_from :
      (fuel i pos : ℕ) (stream : List ℕ)
      → length stream ≤ pos + fuel
      → concatenated (cut_from size fuel i pos stream) ≡ drop pos stream
  unfolding cut_from concatenated
  concatenated-cut_from zero i pos stream h = sym (drop_all pos stream (omega arith))
  concatenated-cut_from (suc fuel) i pos stream h = elim (Bool-cases (ltb pos (length stream))) [
    | inl e ↦ rw e (
        ap (λ t. take (size i) (drop pos stream) ++ t)
          (concatenated-cut_from fuel (i + 1) (pos + size i) stream (omega (arith, (bounds i).0))
            ∙ sym (drop-drop (size i) pos stream))
        ∙ take-append-drop (size i) (drop pos stream))
    | inr e ↦ rw e (sym (drop_all pos stream (ground arith)))
  ]

  cut_from-IsFragment :
      (fuel i pos : ℕ) (stream : List ℕ) → All IsFragment (cut_from size fuel i pos stream)
  unfolding cut_from
  cut_from-IsFragment zero i pos stream = tt
  cut_from-IsFragment (suc fuel) i pos stream = elim (Bool-cases (ltb pos (length stream))) [
    | inl e ↦
        let rest = cut_from-IsFragment fuel (i + 1) (pos + size i) stream in
        let long = length-take (size i) (drop pos stream) in
        let left = length-drop pos stream in
        let lt : pos < length stream = ltb→lt pos (length stream) e in
        rw e ((omega (arith, (bounds i).0), omega (arith, (bounds i).1)), rest)
    | inr e ↦ rw e tt
  ]

  weaker : (fs : List (List ℕ)) → All IsFragment fs → All (λ f. length f ≤ 512) fs
  weaker [] a = tt
  weaker (f ∷ fs) a = (a.0.1, weaker fs a.1)

  or_empty_one-concatenated :
      (fs : List (List ℕ)) → concatenated (or_empty_one fs) ≡ concatenated fs
  unfolding concatenated
  or_empty_one-concatenated [] = refl
  or_empty_one-concatenated (f ∷ fs) = refl

  or_empty_one-IsFragment :
      (fs : List (List ℕ))
      → is_nil (concatenated fs) ≡ false
      → All IsFragment fs
      → All IsFragment (or_empty_one fs)
  unfolding concatenated is_nil
  or_empty_one-IsFragment [] n a = absurd (true≢false n)
  or_empty_one-IsFragment (f ∷ fs) n a = a

  length-cut_from :
      (fuel i pos : ℕ) (stream : List ℕ) → length (cut_from size fuel i pos stream) ≤ fuel
  unfolding cut_from
  length-cut_from zero i pos stream = omega arith
  length-cut_from (suc fuel) i pos stream =
      let rest = cut_from size fuel (i + 1) (pos + size i) stream in
      let few : suc (length rest) ≤ suc fuel =
        omega (arith, length-cut_from fuel (i + 1) (pos + size i) stream) in
      if_both (λ fs. length fs ≤ suc fuel) (ltb pos (length stream))
        (take (size i) (drop pos stream) ∷ rest) [] few (omega arith)

  fits-or_empty_one :
      (fs : List (List ℕ)) → All IsFragment fs → All (λ f. length f ≤ 512) (or_empty_one fs)
  fits-or_empty_one [] a = (omega arith, tt)
  fits-or_empty_one (f ∷ fs) a = (a.0.1, weaker fs a.1)

  length-or_empty_one : (fs : List (List ℕ)) → length (or_empty_one fs) ≤ suc (length fs)
  length-or_empty_one [] = omega arith
  length-or_empty_one (f ∷ fs) = omega arith

  abbrev cut : List ℕ → List (List ℕ)
  cut stream = or_empty_one (cut_from size (length stream) 0 0 stream)

  concatenated-cut : (stream : List ℕ) → concatenated (cut stream) ≡ stream
  concatenated-cut stream =
      or_empty_one-concatenated (cut_from size (length stream) 0 0 stream)
      ∙ concatenated-cut_from (length stream) 0 0 stream (omega arith)

  cut-IsFragment : (stream : List ℕ) → is_nil stream ≡ false → All IsFragment (cut stream)
  cut-IsFragment stream n =
      let fs = cut_from size (length stream) 0 0 stream in
      or_empty_one-IsFragment fs
        (ap is_nil (concatenated-cut_from (length stream) 0 0 stream (omega arith)) ∙ n)
        (cut_from-IsFragment (length stream) 0 0 stream)

  cut-fits :
      (stream : List ℕ)
      → All (λ f. length f ≤ 512) (cut stream) × (length (cut stream) ≤ suc (length stream))
  cut-fits stream =
      let fs = cut_from size (length stream) 0 0 stream in
      (
        fits-or_empty_one fs (cut_from-IsFragment (length stream) 0 0 stream),
        omega (arith, length-or_empty_one fs, length-cut_from (length stream) 0 0 stream),
      )

in_bounds : ℕ → Bool
in_bounds n = leb 1 n && leb n 512

pattern_bounds_below : all_below 10 (λ i. in_bounds (pattern_size i)) ≡ true
unfolding in_bounds
pattern_bounds_below = refl

pattern_size-mod : (i : ℕ) → pattern_size (i % 10) ≡ pattern_size i
pattern_size-mod i = ap (λ n. get_or pattern n 0) (omega arith)

pattern_bounds : (i : ℕ) → (1 ≤ pattern_size i) × (pattern_size i ≤ 512)
unfolding in_bounds
pattern_bounds i =
    let h =
      all_below_lem 10 (λ i. in_bounds (pattern_size i)) (i % 10) pattern_bounds_below
        (omega arith) in
    let b = and_true (leb 1 (pattern_size (i % 10))) (leb (pattern_size (i % 10)) 512) h in
    let same = pattern_size-mod i in
    (
      omega (arith, leb→le 1 (pattern_size (i % 10)) b.0),
      omega (arith, leb→le (pattern_size (i % 10)) 512 b.1),
    )

-- Of a content stream that is not empty, the two framings that cut it make fragments whose
-- concatenation is the stream, and each of which has from 1 to 512 bytes.
pub frame_handshake_stream_lem :
    (frame : RecordFrame) (stream : List ℕ)
    → frame ≢ onepermsg
    → is_nil stream ≡ false
    → (fragments : List (List ℕ)) × (frame_handshake_stream stream frame ≡ ok fragments)
      × (concatenated fragments ≡ stream)
      × All IsFragment fragments
unfolding frame_handshake_stream
frame_handshake_stream_lem onepermsg stream h n = absurd (h refl)
frame_handshake_stream_lem mfl512 stream h n =
    let b : (i : ℕ) → (1 ≤ 512) × (512 ≤ 512) = λ i. (omega arith, omega arith) in
    (
      cut (λ i. 512) b stream,
      refl,
      concatenated-cut (λ i. 512) b stream,
      cut-IsFragment (λ i. 512) b stream n,
    )
frame_handshake_stream_lem pathological stream h n = (
  cut pattern_size pattern_bounds stream,
  refl,
  concatenated-cut pattern_size pattern_bounds stream,
  cut-IsFragment pattern_size pattern_bounds stream n,
)

-- What is used of a cut also where the stream is empty.
pub frame_handshake_stream-fits :
    (frame : RecordFrame) (stream : List ℕ)
    → frame ≢ onepermsg
    → (fragments : List (List ℕ)) × (frame_handshake_stream stream frame ≡ ok fragments)
      × (concatenated fragments ≡ stream)
      × All (λ f. length f ≤ 512) fragments
      × (length fragments ≤ suc (length stream))
unfolding frame_handshake_stream
frame_handshake_stream-fits onepermsg stream h = absurd (h refl)
frame_handshake_stream-fits mfl512 stream h =
    let b : (i : ℕ) → (1 ≤ 512) × (512 ≤ 512) = λ i. (omega arith, omega arith) in
    let (fits, few) = cut-fits (λ i. 512) b stream in
    (cut (λ i. 512) b stream, refl, concatenated-cut (λ i. 512) b stream, fits, few)
frame_handshake_stream-fits pathological stream h =
    let (fits, few) = cut-fits pattern_size pattern_bounds stream in
    (
      cut pattern_size pattern_bounds stream,
      refl,
      concatenated-cut pattern_size pattern_bounds stream,
      fits,
      few,
    )
