-- ===== src/HardwareChecks/Leak.antt =====
-- tools/ip65_hw_checks.py: `check_body_not_on_wire`, which looks for the plaintext of the response in a
-- capture, and what it is made of. The text of a name is not modelled where it is only evidence.
mod Search
pub mod Longest
pub mod Clean
use c64_https.Common.{
  ℕ, zero, suc, ◌+◌, ◌-◌, ◌/◌, Bool, true, false, not, ◌&&◌, Option, none, some, List, [], ◌∷◌,
  ◌++◌, map, ltb, leb, ◌==◌, if◌then◌else◌, length, take, list_eq, filter, any, is_nil,
}
use c64_https.BodyChecks.Verdicts.{
  Verdict, on_wire, unsure, no_secret, no_control, no_frames, in_clear, partly_in_clear,
  control_missing, not_in_clear,
}
use c64_https.TrustBundle.{bytes_lt}
use c64_https.HardwareChecks.Capture.{Frame}
use c64_https.HardwareChecks.Streams.{tcp_streams}
use c64_https.HardwareChecks.Wire.{pass_on, fail_on}

abbrev pub partial_run_min : ℕ
partial_run_min = 8

unfoldable pub petscii_form : List ℕ → List ℕ
petscii_form needle = map (λ b. if leb 0x61 b && leb b 0x7A then b - 0x20 else b) needle

unfoldable pub petscii_shifted_form : List ℕ → List ℕ
petscii_shifted_form needle =
    map (λ b. if leb 0x41 b && leb b 0x5A then b + 0x80 else b) (petscii_form needle)

-- if all(pat != p for _n, p in out): out.append((name, pat))
abbrev pub add_form : List ℕ → List (List ℕ) → List (List ℕ)
add_form pat out = if any (list_eq pat) out then out else out ++ (pat ∷ [])

-- The forms without their names.
unfoldable pub secret_forms : List ℕ → List (List ℕ)
secret_forms secret =
    add_form (petscii_shifted_form secret) (add_form (petscii_form secret) (secret ∷ []))

-- hay.startswith(needle)
unfoldable pub starts_with : List ℕ → List ℕ → Bool
starts_with [] hay = true
starts_with (b ∷ needle) [] = false
starts_with (b ∷ needle) (c ∷ hay) = b == c && starts_with needle hay

-- needle in hay
unfoldable pub is_in : List ℕ → List ℕ → Bool
is_in needle [] = starts_with needle []
is_in needle (c ∷ hay) =
    let rest = is_in needle hay in
    elim (starts_with needle (c ∷ hay)) [ true ↦ true | false ↦ rest ]

-- The loop of the binary search, on the needle from `start` on; what it leaves in `found`. A round makes
-- the interval from `lo` to `hi` shorter.
unfoldable pub search_run : ℕ → List ℕ → List ℕ → ℕ → ℕ → ℕ → ℕ
search_run zero hay tail lo hi found = found
search_run (suc fuel) hay tail lo hi found =
    let mid = (lo + hi) / 2 in
    let hit = is_in (take mid tail) hay in
    if ltb hi lo
    then found
    else search_run fuel hay tail (if hit then mid + 1 else lo) (if hit then hi else mid - 1)
        (if hit then mid else found)

-- What is best so far: the length, and the offset in the needle, for which none is -1.
abbrev pub Run : Type 0
Run = ℕ × Option ℕ

abbrev pub better : Run → ℕ → ℕ → Run
better r found start = if ltb r.0 found then (found, some start) else r

-- The loop over the start offsets, on the needle from `start` on.
unfoldable pub runs_from : List ℕ → List ℕ → ℕ → Run → Run
runs_from hay [] start best = best
runs_from hay (b ∷ tail) start best =
    let n = length (b ∷ tail) in
    let found = search_run n hay (b ∷ tail) (best.0 + 1) n 0 in
    let rest = runs_from hay tail (start + 1) (better best found start) in
    if leb n best.0 then best else rest

unfoldable pub longest_run : List ℕ → List ℕ → Run
longest_run hay needle = runs_from hay needle 0 (0, none)

unfoldable pub add_source : List ℕ → List (List ℕ) → List (List ℕ)
add_source src [] = src ∷ []
add_source src (s ∷ ss) =
    let rest = add_source src ss in
    if list_eq src s then s ∷ ss else if bytes_lt src s then src ∷ s ∷ ss else s ∷ rest

-- sorted({bytes(f.eth_src) for f in frames})
unfoldable pub sources_of : List Frame → List (List ℕ)
sources_of [] = []
sources_of (f ∷ fs) = add_source f.eth_src (sources_of fs)

-- if st: corpora.append(st)
abbrev pub streams_of : List Frame → List ℕ → List (List ℕ)
streams_of frames src = filter (λ st. not (is_nil st)) (tcp_streams frames (some src) none none)

unfoldable pub streams_from : List Frame → List (List ℕ) → List (List ℕ)
streams_from frames [] = []
streams_from frames (src ∷ srcs) = streams_of frames src ++ streams_from frames srcs

abbrev pub corpora_of : List Frame → List (List ℕ)
corpora_of frames = map (λ f. f.raw) frames ++ streams_from frames (sources_of frames)

abbrev pub max_of : ℕ → ℕ → ℕ
max_of a b = if ltb a b then b else a

-- max(longest_run(c, pat)[0] for pat in forms), and 0 for no form
unfoldable pub best_run : List ℕ → List (List ℕ) → ℕ
best_run c [] = 0
best_run c (pat ∷ forms) = max_of (longest_run c pat).0 (best_run c forms)

abbrev pub has_full : List (List ℕ) → List ℕ → Bool
has_full forms c = any (λ pat. is_in pat c) forms

abbrev pub has_partial : ℕ → List (List ℕ) → List ℕ → Bool
has_partial partial_min forms c = not (has_full forms c) && leb partial_min (best_run c forms)

unfoldable pub check_body_not_on_wire : List Frame → List ℕ → List ℕ → ℕ → Verdict
check_body_not_on_wire frames secret control partial_min =
    let corpora = corpora_of frames in
    let forms = secret_forms secret in
    if is_nil secret
    then fail_on no_secret
    else if is_nil control
    then fail_on no_control
    else if is_nil frames
    then unsure (on_wire no_frames)
    else if any (has_full forms) corpora
    then fail_on in_clear
    else if any (has_partial partial_min forms) corpora
    then fail_on partly_in_clear
    else if any (is_in control) corpora
    then pass_on not_in_clear
    else unsure (on_wire control_missing)
