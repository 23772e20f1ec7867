-- ===== src/EvilListener/ClientHello/Entries.antt =====
-- tools/https_e2e/evil_listener.py: what `parse_client_hello` reads at a place, by what stands there.
use c64_https.Common.{
  ℕ, zero, suc, ◌+◌, ◌*◌, ◌/◌, ◌%◌, ◌<◌, true, false, some, List, [], ◌∷◌, ◌++◌, length, drop, take,
  All, ltb, ◌==◌, ok, ◌≡◌, ◌≢◌, refl, ap, ◌∙◌, arith,
}
use mathlib.Core.List.{append_assoc}
use c64_https.HardwareChecks.Positions.{slice_lem, drop_more, length_here}
use c64_https.HardwareChecks.Names.Hello.{
  two, Extension, extension_bytes, extensions_bytes, data_lem, next_lem,
}
use c64_https.EvilListener.{unpack_be16, group_x25519}
use c64_https.EvilListener.ClientHello.{read16, suites_from, share_from}

unfoldable pub suites_bytes : List ℕ → List ℕ
suites_bytes [] = []
suites_bytes (s ∷ ss) = two s ++ suites_bytes ss

pub read16_here :
    (bs : List ℕ) (off m : ℕ) (more : List ℕ) → drop off bs ≡ two m ++ more → read16 bs off ≡ ok m
unfolding read16 unpack_be16
read16_here bs off m more at =
    ap unpack_be16 (slice_lem off 2 bs ∙ ap (take 2) at)
    ∙ (let e : m / 256 * 256 + m % 256 ≡ m = omega arith in ap ok e)

pub suites_from-suites_bytes :
    (body : List ℕ) (off : ℕ) (ss more : List ℕ)
    → drop off body ≡ suites_bytes ss ++ more
    → suites_from (length ss) body off ≡ ok ss
unfolding suites_from suites_bytes
suites_from-suites_bytes body off [] more at = refl
suites_from-suites_bytes body off (s ∷ ss) more at =
    let next : drop (off + 2) body ≡ suites_bytes ss ++ more =
      drop_more body off (two s ++ (suites_bytes ss ++ more)) at 2 in
    rw
      (
        suites_from,
        read16_here body off s (suites_bytes ss ++ more) at,
        suites_from-suites_bytes body (off + 2) ss more next,
      )
      refl

pub length-suites_bytes : (ss : List ℕ) → length (suites_bytes ss) ≡ length ss * 2
unfolding suites_bytes
length-suites_bytes [] = refl
length-suites_bytes (s ∷ ss) = omega (arith, length-suites_bytes ss)

-- An entry of a list of extensions, or of key shares, at a place.
module _ (bs : List ℕ) (off : ℕ) (e : Extension) (more : List ℕ)
    (at : drop off bs ≡ extension_bytes e ++ more) where
  pub kind_here : read16 bs off ≡ ok e.kind
  kind_here = read16_here bs off e.kind (two (length e.content) ++ (e.content ++ more)) at

  pub size_here : read16 bs (off + 2) ≡ ok (length e.content)
  size_here =
      read16_here bs (off + 2) (length e.content) (e.content ++ more)
        (drop_more bs off (extension_bytes e ++ more) at 2)

  pub within : ltb off (length bs) ≡ true
  within = ground (arith, length_here bs off (extension_bytes e ++ more) at)

abbrev pub x25519_entry : List ℕ → Extension
x25519_entry share = record { kind = group_x25519; content = share }

-- The first share for x25519 is taken.
pub share_from-x25519 :
    (fuel : ℕ) (bs : List ℕ) (q : ℕ) (before : List Extension) (share behind : List ℕ)
    → length before < fuel
    → All (λ e. e.kind ≢ group_x25519) before
    → drop q bs ≡ extensions_bytes before ++ (extension_bytes (x25519_entry share) ++ behind)
    → share_from fuel bs q ≡ ok (some share)
unfolding share_from extensions_bytes
share_from-x25519 zero bs q before share behind f k at = absurd (omega arith)
share_from-x25519 (suc fuel) bs q [] share behind f k at =
    let e : Extension = x25519_entry share in
    rw
      (
        share_from,
        within bs q e behind at,
        kind_here bs q e behind at,
        size_here bs q e behind at,
        data_lem bs q e behind at,
      )
      refl
share_from-x25519 (suc fuel) bs q (e ∷ es) share behind f k at =
    let mine : List ℕ = extension_bytes (x25519_entry share) ++ behind in
    let more : List ℕ = extensions_bytes es ++ mine in
    let at' : drop q bs ≡ extension_bytes e ++ more =
      at ∙ append_assoc (extension_bytes e) (extensions_bytes es) mine in
    let other : (e.kind == group_x25519) ≡ false = ground (arith, k.0) in
    rw
      (
        share_from,
        within bs q e more at',
        kind_here bs q e more at',
        size_here bs q e more at',
        other,
      )
      (share_from-x25519 fuel bs (q + 4 + length e.content) es share behind (omega arith) k.1
        (next_lem bs q e more at'))
