-- ===== src/HardwareChecks/Streams/Assembly.antt =====
-- tools/ip65_hw_checks.py: what `tcp_streams` assembles of the pieces of a message.
use c64_https.Common.{
  ℕ, zero, suc, ◌+◌, ◌-◌, ◌≤◌, List, [], ◌∷◌, ◌++◌, leb, leb→le, if◌then◌else◌, length, length-take,
  take, drop, replicate, take-take, take-add, take-append-drop, ◌≡◌, refl, sym, ap, ◌∙◌, Bool-cases,
  inl, inr, arith,
}
use mathlib.Core.List.{append_assoc, append-nil}
use c64_https.HardwareChecks.Streams.{Pieces, sorted_pieces, written, write_all, base_of, assembled}

abbrev pub further : ℕ → ℕ → ℕ
further n k = if leb n k then k else n

-- How far pieces in the order of their numbers reach, where `n` bytes are there already.
unfoldable pub reached : ℕ → ℕ → Pieces → ℕ
reached base n [] = n
reached base n ((seq, payload) ∷ ps) = reached base (further n (seq - base + length payload)) ps

-- Each piece is the part of the message at its number, and begins where the pieces before it have reached
-- or earlier; so pieces may overlap and repeat, but leave no gap.
unfoldable pub IsCut : List ℕ → ℕ → ℕ → Pieces → Type 0
IsCut message base n [] = Unit {0}
IsCut message base n ((seq, payload) ∷ ps) =
    (seq - base ≤ n)
    × (seq - base + length payload ≤ length message)
    × (payload ≡ take (length payload) (drop (seq - base) message))
    × IsCut message base (further n (seq - base + length payload)) ps

drop_all : (n : ℕ) (xs : List ℕ) → length xs ≤ n → drop n xs ≡ []
drop_all zero [] h = refl
drop_all zero (x ∷ xs) h = absurd (omega arith)
drop_all (suc n) [] h = refl
drop_all (suc n) (x ∷ xs) h = drop_all n xs (omega arith)

-- A piece behind which nothing is lost: a longer beginning of the message.
joined_lem :
    (message : List ℕ) (n e : ℕ)
    → n ≤ length message
    → take e message ++ drop e (take n message) ≡ take (further n e) message
joined_lem message n e h = elim (Bool-cases (leb n e)) [
  | inl l ↦ rw (l) (
      ap (λ t. take e message ++ t)
        (drop_all e (take n message) (ground (arith, length-take n message, leb→le n e l)))
      ∙ append-nil (take e message))
  | inr l ↦ rw (l) (
      ap (λ t. t ++ drop e (take n message)) (sym (take-take e n message (ground arith)))
      ∙ take-append-drop e (take n message))
]

written-take :
    (message : List ℕ) (n off : ℕ) (payload : List ℕ)
    → off ≤ n
    → n ≤ length message
    → payload ≡ take (length payload) (drop off message)
    → written off payload (take n message) ≡ take (further n (off + length payload)) message
unfolding written
written-take message n off payload o h p =
    let k : ℕ = length payload in
    let whole : length (take n message) ≡ n = length-take n message ∙ ground arith in
    let full : off - length (take n message) ≡ 0 = ground arith in
    let fill : take n message ++ replicate (off - length (take n message)) 0 ≡ take n message =
      ap (λ z. take n message ++ replicate z 0) full ∙ append-nil (take n message) in
    let behind : List ℕ = drop (off + k) (take n message) in
    let front : take off message ++ payload ≡ take (off + k) message =
      ap (λ t. take off message ++ t) p ∙ sym (take-add off k message) in
    ap (λ b. take off b ++ (payload ++ drop (off + k) b)) fill
    ∙ ap (λ t. t ++ (payload ++ behind)) (take-take off n message o)
    ∙ sym (append_assoc (take off message) payload behind)
    ∙ ap (λ t. t ++ behind) front
    ∙ joined_lem message n (off + k) h

write_all-take :
    (message : List ℕ) (base n : ℕ) (ps : Pieces)
    → n ≤ length message
    → IsCut message base n ps
    → write_all base ps (take n message) ≡ take (reached base n ps) message
unfolding write_all reached IsCut
write_all-take message base n [] h c = refl
write_all-take message base n ((seq, payload) ∷ ps) h c =
    ap (write_all base ps) (written-take message n (seq - base) payload c.0 h c.2)
    ∙ write_all-take message base (further n (seq - base + length payload)) ps (ground (arith, c.1))
        c.3

-- Of pieces that are parts of a message and leave no gap, in whatever order they were captured, overlapping
-- or repeated, the message is assembled as far as they reach.
pub assembled-IsCut :
    (message : List ℕ) (pieces : Pieces)
    → IsCut message (base_of (sorted_pieces pieces)) 0 (sorted_pieces pieces)
    → assembled pieces
      ≡ take (reached (base_of (sorted_pieces pieces)) 0 (sorted_pieces pieces)) message
unfolding assembled
assembled-IsCut message pieces c =
    write_all-take message (base_of (sorted_pieces pieces)) 0 (sorted_pieces pieces) (omega arith) c
