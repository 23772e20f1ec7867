-- ===== src/HardwareChecks/Names/Questions.antt =====
-- tools/ip65_hw_checks.py: `dns_question_names` reads back the names of a query.
use c64_https.Common.{
  ℕ, zero, suc, ◌+◌, ◌≤◌, ◌<◌, min, true, false, List, [], ◌∷◌, ◌++◌, map, ltb, leb, ◌==◌, length,
  length-append, drop, slice, All, take-append_length, drop-append_length, ◌≡◌, refl, sym, ap, ◌∙◌,
  all_below_lem, arith,
}
use Prim.Native.Nat.{bit_and}
use mathlib.Core.List.{append_assoc}
use c64_https.HardwareChecks.Capture.{be_at}
use c64_https.HardwareChecks.Names.{
  replaced, labels_from, joined, named, names_from, dns_question_names,
}
use c64_https.HardwareChecks.Positions.{byte_here, drop_more, slice_here, length_here, be_at-append}

-- A label as RFC 1035 has it, of ASCII.
abbrev pub IsLabel : List ℕ → Type 0
IsLabel l = (0 < length l) × (length l < 64) × All (λ b. b < 128) l

unfoldable pub label_bytes : List (List ℕ) → List ℕ
label_bytes [] = 0 ∷ []
label_bytes (l ∷ ls) = length l ∷ (l ++ label_bytes ls)

no_pointer : (n : ℕ) → n < 64 → (bit_and n 0xC0 == 0) ≡ true
no_pointer n h = all_below_lem 64 (λ m. bit_and m 0xC0 == 0) n refl h

replaced_lem : (l : List ℕ) → All (λ b. b < 128) l → replaced l ≡ l
replaced_lem [] h = refl
replaced_lem (b ∷ l) h =
    let b' : ltb b 128 ≡ true = ground (arith, h.0) in rw (b', replaced_lem l h.1) refl

labels_from-label_bytes :
    (fuel : ℕ) (payload : List ℕ) (off : ℕ) (ls : List (List ℕ)) (rest : List ℕ)
    → All IsLabel ls
    → length ls < fuel
    → drop off payload ≡ label_bytes ls ++ rest
    → labels_from fuel payload off ≡ (off + length (label_bytes ls), ls)
unfolding labels_from label_bytes
labels_from-label_bytes zero payload off ls rest v f d = absurd (omega arith)
labels_from-label_bytes (suc fuel) payload off [] rest v f d =
    let long : leb (length payload) off ≡ false =
      ground (arith, length_here payload off (0 ∷ rest) d) in
    rw (long, byte_here payload off (0 ∷ rest) d) refl
labels_from-label_bytes (suc fuel) payload off (l ∷ ls) rest v f d =
    let here : drop off payload ≡ length l ∷ (l ++ (label_bytes ls ++ rest)) =
      d ∙ ap (λ t. length l ∷ t) (append_assoc l (label_bytes ls) rest) in
    let ys : List ℕ = length l ∷ (l ++ (label_bytes ls ++ rest)) in
    let long : leb (length payload) off ≡ false = ground (arith, length_here payload off ys here) in
    let some_bytes : (length l == 0) ≡ false = ground (arith, v.0.0) in
    let label : slice (off + 1) (off + 1 + length l) payload ≡ l =
      slice_here payload off ys here 1 (length l)
      ∙ take-append_length (length l) l (label_bytes ls ++ rest) refl in
    let next : drop (off + 1 + length l) payload ≡ label_bytes ls ++ rest =
      ap (λ t. drop t payload) (omega arith)
      ∙ drop_more payload off ys here (1 + length l)
      ∙ drop-append_length (1 + length l) (length l ∷ l) (label_bytes ls ++ rest) (omega arith) in
    let more =
      labels_from-label_bytes fuel payload (off + 1 + length l) ls rest v.1 (omega arith) next in
    rw
      (
        long,
        byte_here payload off ys here,
        some_bytes,
        no_pointer (length l) v.0.1,
        label,
        replaced_lem l v.0.2,
        more,
      )
      (ap (λ t. (t, l ∷ ls)) (ground (arith, length-append l (label_bytes ls))))

-- The question for a name: its labels, and the type and the class.
pub record Question : Type 0 where
  pub labels : List (List ℕ)
  pub type_and_class : List ℕ

unfoldable pub question_bytes : List Question → List ℕ
question_bytes [] = []
question_bytes (q ∷ qs) = label_bytes q.labels ++ (q.type_and_class ++ question_bytes qs)

abbrev pub IsQuestion : Question → Type 0
IsQuestion q = (0 < length q.labels) × All IsLabel q.labels × (length q.type_and_class ≡ 4)

length-label_bytes : (ls : List (List ℕ)) → length ls < length (label_bytes ls)
unfolding label_bytes
length-label_bytes [] = omega arith
length-label_bytes (l ∷ ls) =
    ground (arith, length-append l (label_bytes ls), length-label_bytes ls)

named_lem : (ls names : List (List ℕ)) → 0 < length ls → named ls names ≡ joined ls ∷ names
named_lem [] names h = absurd (omega arith)
named_lem (l ∷ ls) names h = refl

names_from-question_bytes :
    (payload : List ℕ) (off : ℕ) (qs : List Question) (rest : List ℕ)
    → All IsQuestion qs
    → drop off payload ≡ question_bytes qs ++ rest
    → names_from (length qs) payload off ≡ map (λ q. joined q.labels) qs
unfolding names_from question_bytes
names_from-question_bytes payload off [] rest v d = refl
names_from-question_bytes payload off (q ∷ qs) rest v d =
    let lb : List ℕ = label_bytes q.labels in
    let more : List ℕ = q.type_and_class ++ (question_bytes qs ++ rest) in
    let here : drop off payload ≡ lb ++ more =
      d
      ∙ append_assoc lb (q.type_and_class ++ question_bytes qs) rest
      ∙ ap (λ t. lb ++ t) (append_assoc q.type_and_class (question_bytes qs) rest) in
    let fuel : length q.labels < length payload = ground (
      arith,
      length_here payload off (lb ++ more) here,
      length-append lb more,
      length-label_bytes q.labels,
    ) in
    let next : drop (off + length lb + 4) payload ≡ question_bytes qs ++ rest =
      ap (λ t. drop t payload) (omega arith)
      ∙ drop_more payload off (lb ++ more) here (length lb + 4)
      ∙ ap (drop (length lb + 4))
          (sym (append_assoc lb q.type_and_class (question_bytes qs ++ rest)))
      ∙ drop-append_length (length lb + 4) (lb ++ q.type_and_class) (question_bytes qs ++ rest)
          (length-append lb q.type_and_class ∙ ap (λ t. length lb + t) v.0.2) in
    rw
      (
        labels_from-label_bytes (length payload) payload off q.labels more v.0.1 fuel here,
        named_lem q.labels (names_from (length qs) payload (off + length lb + 4)) v.0.0,
        names_from-question_bytes payload (off + length lb + 4) qs rest v.1 next,
      )
      refl

-- Of a message with up to eight questions, the names are those asked for, in their order, whatever stands
-- behind the questions.
pub dns_question_names-question_bytes :
    (header : List ℕ) (qs : List Question) (rest : List ℕ)
    → length header ≡ 12
    → be_at 4 2 header ≡ length qs
    → length qs ≤ 8
    → All IsQuestion qs
    → dns_question_names (header ++ (question_bytes qs ++ rest)) ≡ map (λ q. joined q.labels) qs
unfolding dns_question_names
dns_question_names-question_bytes header qs rest l n m v =
    let payload : List ℕ = header ++ (question_bytes qs ++ rest) in
    let long : ltb (length payload) 12 ≡ false =
      ground (arith, length-append header (question_bytes qs ++ rest)) in
    let count : min (be_at 4 2 payload) 8 ≡ length qs =
      ap (λ t. min t 8) (be_at-append 4 2 header (question_bytes qs ++ rest) (omega arith) ∙ n)
      ∙ ground arith in
    rw (long, count)
      (names_from-question_bytes payload 12 qs rest v
        (drop-append_length 12 header (question_bytes qs ++ rest) l))
