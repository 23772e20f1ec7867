-- ===== src/HardwareChecks/Wire/Stations.antt =====
-- tools/ip65_hw_checks.py: which captures pass `check_c64_originated` and `check_capture_bracket`.
use c64_https.Common.{
  ℕ, ◌≤◌, ◌<◌, Bool, true, false, not, Option, none, some, List, [], ◌∷◌, ltb, if◌then◌else◌,
  length, list_eq, list_eq→eq, eq→list_eq, filter, filter-keeps, filter-drops, is_nil, All, ◌≡◌,
  ◌≢◌, refl, sym, ap, ◌∙◌, ◌↔◌, ◌⊎◌, inl, inr, Bool-cases, true≢false, arith,
}
use mathlib.Core.Path.{subst}
use c64_https.BodyChecks.Verdicts.{
  WireReason, same_macs, unexpected_macs, few_frames, station_seen, few_on_port, port_seen,
  inverted_window, none_inside, few_inside, bracketed, empty_capture,
}
use c64_https.HardwareChecks.Capture.{Frame}
use c64_https.HardwareChecks.Wire.{
  pass_on, fail_on, split_by_source, is_from, on_tcp_port, check_c64_originated,
  check_capture_bracket, frames_in_window, in_window,
}

split_by_source-client :
    (frames : List Frame) (cm hm : List ℕ)
    → (split_by_source frames cm hm).client ≡ filter (is_from cm) frames
unfolding split_by_source filter
split_by_source-client [] cm hm = refl
split_by_source-client (f ∷ fs) cm hm =
    let rest = split_by_source-client fs cm hm in
    elim (Bool-cases (list_eq f.eth_src cm)) [
      | inl e ↦ rw (e) (ap (λ t. f ∷ t) rest ∙ sym (filter-keeps (is_from cm) f fs e))
      | inr e ↦ elim (Bool-cases (list_eq f.eth_src hm)) [
        | inl d ↦ rw (e, d) (rest ∙ sym (filter-drops (is_from cm) f fs e))
        | inr d ↦ rw (e, d) (rest ∙ sym (filter-drops (is_from cm) f fs e))
      ]
    ]

-- The address of a frame is one of the two.
abbrev pub IsOfStation : List ℕ → List ℕ → Frame → Type 0
IsOfStation cm hm f = (f.eth_src ≡ cm) ⊎ (f.eth_src ≡ hm)

module _ (cm hm : List ℕ) where
  split_by_source-IsOfStation :
      (frames : List Frame)
      → is_nil (split_by_source frames cm hm).other ≡ true
      → All (IsOfStation cm hm) frames
  unfolding split_by_source is_nil
  split_by_source-IsOfStation [] h = tt
  split_by_source-IsOfStation (f ∷ fs) h = elim (Bool-cases (list_eq f.eth_src cm)) [
    | inl e ↦ (inl (list_eq→eq f.eth_src cm e), split_by_source-IsOfStation fs (rw (e) at h))
    | inr e ↦ elim (Bool-cases (list_eq f.eth_src hm)) [
      | inl d ↦ (inr (list_eq→eq f.eth_src hm d), split_by_source-IsOfStation fs (rw (e, d) at h))
      | inr d ↦ absurd (true≢false (sym (rw (e, d) at h)))
    ]
  ]

  IsOfStation-split_by_source :
      (frames : List Frame)
      → All (IsOfStation cm hm) frames
      → is_nil (split_by_source frames cm hm).other ≡ true
  unfolding split_by_source is_nil
  IsOfStation-split_by_source [] h = refl
  IsOfStation-split_by_source (f ∷ fs) h =
      let rest = IsOfStation-split_by_source fs h.1 in
      elim (Bool-cases (list_eq f.eth_src cm)) [
        | inl e ↦ rw (e) rest
        | inr e ↦ elim h.0 [
          | inl c ↦ absurd (true≢false (sym (eq→list_eq f.eth_src cm c) ∙ e))
          | inr c ↦ rw (e, eq→list_eq f.eth_src hm c) rest
        ]
      ]

-- The frames that count for a port, or for none.
abbrev pub counted : Option ℕ → List Frame → List Frame
counted none frames = frames
counted (some port) frames = filter (on_tcp_port port) frames

abbrev Enough : List Frame → List ℕ → List ℕ → ℕ → Option ℕ → Type 0
Enough frames cm hm n port =
    (list_eq cm hm ≡ false)
    × (is_nil (split_by_source frames cm hm).other ≡ true)
    × (n ≤ length (counted port (split_by_source frames cm hm).client))

decided_iff :
    (same two : Bool) (m n : ℕ) (r1 r2 r3 r4 : WireReason)
    → ((if same
          then fail_on r1
          else if not two
          then fail_on r2
          else if ltb m n
          then fail_on r3
          else pass_on r4).passed
        ≡ true)
      ↔ ((same ≡ false) × (two ≡ true) × (n ≤ m))
decided_iff true two m n r1 r2 r3 r4 = (λ h. absurd (true≢false (sym h)), λ h. sym h.0)
decided_iff false false m n r1 r2 r3 r4 = (λ h. absurd (true≢false (sym h)), λ h. h.1)
decided_iff false true m n r1 r2 r3 r4 = (λ h. (refl, refl, ground arith), λ h. ground (arith, h.2))

check_c64_originated_parts :
    (frames : List Frame) (cm hm : List ℕ) (n : ℕ) (port : Option ℕ)
    → ((check_c64_originated frames cm hm n port).passed ≡ true) ↔ Enough frames cm hm n port
unfolding check_c64_originated
check_c64_originated_parts frames cm hm n none =
    decided_iff (list_eq cm hm) (is_nil (split_by_source frames cm hm).other)
      (length (split_by_source frames cm hm).client) n same_macs unexpected_macs few_frames
      station_seen
check_c64_originated_parts frames cm hm n (some port) =
    decided_iff (list_eq cm hm) (is_nil (split_by_source frames cm hm).other)
      (length (filter (on_tcp_port port) (split_by_source frames cm hm).client)) n same_macs
      unexpected_macs few_on_port port_seen

differ : (xs ys : List ℕ) → xs ≢ ys → list_eq xs ys ≡ false
differ xs ys h = elim (Bool-cases (list_eq xs ys)) [
  | inl e ↦ absurd (h (list_eq→eq xs ys e))
  | inr e ↦ e
]

-- A capture passes for the client exactly when its address is not the host's, every frame comes from one of
-- the two, and Enough frames, on the port where one is given, come from the client.
pub check_c64_originated_iff :
    (frames : List Frame) (cm hm : List ℕ) (n : ℕ) (port : Option ℕ)
    → ((check_c64_originated frames cm hm n port).passed ≡ true) ↔ (
        (cm ≢ hm)
        × All (IsOfStation cm hm) frames
        × (n ≤ length (counted port (filter (is_from cm) frames))))
check_c64_originated_iff frames cm hm n port =
    let parts = check_c64_originated_parts frames cm hm n port in
    let same = ap (λ fs. length (counted port fs)) (split_by_source-client frames cm hm) in
    (
      λ h.
          let e = parts.0 h in
          (
            λ c. true≢false (sym (eq→list_eq cm hm c) ∙ e.0),
            split_by_source-IsOfStation cm hm frames e.1,
            subst (λ m. n ≤ m) same e.2,
          ),
      λ h. parts.1 (
        differ cm hm h.0,
        IsOfStation-split_by_source cm hm frames h.1,
        subst (λ m. n ≤ m) (sym same) h.2,
      ),
    )

none_pass :
    (inverted : Bool) (r : WireReason) (a b n : ℕ)
    → ((if inverted then fail_on inverted_window else fail_on r).passed ≡ true)
      ↔ ((a ≤ b) × (0 < 0) × (n ≤ 0))
none_pass true r a b n = (λ h. absurd (true≢false (sym h)), λ h. absurd (omega (arith, h.1)))
none_pass false r a b n = (λ h. absurd (true≢false (sym h)), λ h. absurd (omega (arith, h.1)))

bracketed_iff :
    (inside : List Frame) (started_at ended_at n : ℕ)
    → ((if ltb ended_at started_at
          then fail_on inverted_window
          else if is_nil inside
          then fail_on none_inside
          else if ltb (length inside) n
          then fail_on few_inside
          else pass_on bracketed).passed
        ≡ true)
      ↔ ((started_at ≤ ended_at) × (0 < length inside) × (n ≤ length inside))
unfolding is_nil
bracketed_iff [] started_at ended_at n =
    none_pass (ltb ended_at started_at) none_inside started_at ended_at n
bracketed_iff (f ∷ fs) started_at ended_at n =
    (λ h. (ground arith, omega arith, ground arith), λ h. ground (arith, h.0, h.2))

-- A capture passes for the window of a run exactly when the window is in order and the run's corpus has a
-- frame, and at least as many as are asked for.
pub check_capture_bracket_iff :
    (frames : List Frame) (started_at ended_at n slack : ℕ)
    → ((check_capture_bracket frames started_at ended_at n slack).passed ≡ true) ↔ (
        (started_at ≤ ended_at)
        × (0 < length (frames_in_window frames started_at ended_at slack))
        × (n ≤ length (frames_in_window frames started_at ended_at slack)))
unfolding check_capture_bracket frames_in_window filter is_nil
check_capture_bracket_iff [] started_at ended_at n slack =
    none_pass (ltb ended_at started_at) empty_capture started_at ended_at n
check_capture_bracket_iff (f ∷ fs) started_at ended_at n slack =
    bracketed_iff (filter (in_window started_at ended_at slack) (f ∷ fs)) started_at ended_at n
