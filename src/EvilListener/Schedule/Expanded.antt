-- ===== src/EvilListener/Schedule/Expanded.antt =====
-- tools/https_e2e/evil_listener.py: `_hkdf_expand` against the definition of RFC 5869, and the lengths of
-- what the key schedule returns.
use c64_https.Common.{
  ℕ, zero, suc, ◌+◌, ◌-◌, ◌*◌, ◌≤◌, true, false, List, [], ◌∷◌, ◌++◌, length, length-append,
  length-take, take, take-append_le, ltb, leb, if◌then◌else◌, Result, ok, raised, ◌>>=◌,
  value_error, ◌≡◌, refl, sym, ap, ◌∙◌, arith, Bool-cases, inl, inr,
}
use mathlib.Core.List.{append_assoc, append-nil}
use c64_https.EvilListener.{pack_be16, one_byte}
use c64_https.EvilListener.Primitives.{Primitives}
use c64_https.EvilListener.Schedule.{expand_from, hkdf_expand, hkdf_expand_label, derive_secret}

module _ (p : Primitives) (prk info : List ℕ) where
  -- The blocks T(0), T(1), ... of HKDF-Expand, and the concatenation of the first `n`.
  unfoldable pub block : ℕ → List ℕ
  block zero = []
  block (suc n) = p.hmac prk (block n ++ (info ++ (suc n ∷ [])))

  unfoldable pub blocks : ℕ → List ℕ
  blocks zero = []
  blocks (suc n) = blocks n ++ block (suc n)

  length-blocks : (n : ℕ) → length (blocks n) ≡ n * 32
  unfolding blocks block
  length-blocks zero = refl
  length-blocks (suc n) =
      length-append (blocks n) (block (suc n))
      ∙ omega (arith, length-blocks n, p.length_hmac prk (block n ++ (info ++ (suc n ∷ []))))

  -- The first blocks begin all blocks.
  blocks-add : (n k : ℕ) → (rest : List ℕ) × (blocks (n + k) ≡ blocks n ++ rest)
  unfolding blocks
  blocks-add n zero =
      ([], ap blocks (let e : n + zero ≡ n = omega arith in e) ∙ sym (append-nil (blocks n)))
  blocks-add n (suc k) =
      let more = blocks-add n k in
      (
        more.0 ++ block (suc (n + k)),
        ap blocks (let e : n + suc k ≡ suc (n + k) = omega arith in e)
            ∙ ap (λ t. t ++ block (suc (n + k))) more.1
            ∙ append_assoc (blocks n) more.0 (block (suc (n + k))),
      )

  pub take-blocks :
      (n len : ℕ) → n ≤ 255 → len ≤ n * 32 → take len (blocks n) ≡ take len (blocks 255)
  take-blocks n len h l =
      let more = blocks-add n (255 - n) in
      sym (take-append_le len (blocks n) more.0 (omega (arith, length-blocks n)))
      ∙ ap (take len) (sym more.1 ∙ ap blocks (let e : n + (255 - n) ≡ 255 = omega arith in e))

  -- What is asked for in all, where at most 255 blocks are.
  abbrev pub expansion : ℕ → Result (List ℕ)
  expansion len = if leb len 8160 then ok (take len (blocks 255)) else raised value_error

  -- The loop has all that is asked for.
  enough : (n len : ℕ) → n ≤ 255 → len ≤ n * 32 → ok (take len (blocks n)) ≡ expansion len
  enough n len h l =
      let small : leb len 8160 ≡ true = ground arith in rw small (ap ok (take-blocks n len h l))

  abbrev finish : List ℕ → ℕ → Result (List ℕ)
  finish out len = ok (take len out)

  expand_from_lem :
      (fuel n len : ℕ)
      → n ≤ 255
      → len ≤ n * 32 + fuel
      → (expand_from p fuel prk info len (suc n) (block n) (blocks n) >>= λ out. finish out len)
        ≡ expansion len
  unfolding expand_from one_byte block blocks
  expand_from_lem zero n len h f = enough n len h (omega arith)
  expand_from_lem (suc fuel) n len h f = elim (Bool-cases (ltb (length (blocks n)) len)) [
    | inr e ↦ rw (expand_from, e) (enough n len h (ground (arith, length-blocks n)))
    | inl e ↦ elim (Bool-cases (ltb (suc n) 256)) [
      | inl room ↦
          rw (expand_from, e, one_byte, room)
            (ap
                (λ k. expand_from p fuel prk info len k (block (suc n)) (blocks (suc n)) >>= λ out.
                  finish out len)
                (let e : suc n + 1 ≡ suc (suc n) = omega arith in e)
              ∙ expand_from_lem fuel (suc n) len (ground arith) (omega arith))
      | inr full ↦
          let large : leb len 8160 ≡ false = ground (arith, length-blocks n) in
          rw (expand_from, e, one_byte, full, large) refl
    ]
  ]

  -- `_hkdf_expand` is HKDF-Expand of RFC 5869: of up to 255 * 32 bytes it returns as many of
  -- T(1), T(2), ..., and it raises ValueError where more are asked for. The loop ends in all cases.
  pub hkdf_expand-expansion : (len : ℕ) → hkdf_expand p prk info len ≡ expansion len
  unfolding hkdf_expand block blocks
  hkdf_expand-expansion len = expand_from_lem len 0 len (omega arith) (omega arith)

  length-expansion :
      (len : ℕ)
      → len ≤ 8160
      → (out : List ℕ) × (hkdf_expand p prk info len ≡ ok out) × (length out ≡ len)
  length-expansion len h =
      let small : leb len 8160 ≡ true = ground arith in
      (
        take len (blocks 255),
        hkdf_expand-expansion len ∙ rw small refl,
        length-take len (blocks 255) ∙ omega (arith, length-blocks 255),
      )

-- A label and a context that fit their length bytes give as many bytes as are asked for.
pub hkdf_expand_label-ok :
    (p : Primitives) (secret label context : List ℕ) (len : ℕ)
    → length label ≤ 249
    → length context ≤ 255
    → len ≤ 8160
    → (out : List ℕ) × (hkdf_expand_label p secret label context len ≡ ok out) × (length out ≡ len)
unfolding hkdf_expand_label pack_be16 one_byte
hkdf_expand_label-ok p secret label context len hl hc h =
    let a : ltb len 65536 ≡ true = ground arith in
    let b : ltb (6 + length label) 256 ≡ true = ground arith in
    let c : ltb (length context) 256 ≡ true = ground arith in
    rw (a, b, c) (length-expansion p secret _ len h)

pub derive_secret-ok :
    (p : Primitives) (secret label : List ℕ) (transcript : List ℕ)
    → length label ≤ 249
    → (out : List ℕ) × (derive_secret p secret label (p.sha256 transcript) ≡ ok out)
      × (length out ≡ 32)
unfolding derive_secret
derive_secret-ok p secret label transcript h =
    hkdf_expand_label-ok p secret label (p.sha256 transcript) 32 h
      (omega (arith, p.length_sha256 transcript)) (omega arith)
