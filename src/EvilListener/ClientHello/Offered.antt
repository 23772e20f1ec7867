-- ===== src/EvilListener/ClientHello/Offered.antt =====
-- tools/https_e2e/evil_listener.py: what `parse_client_hello` finds among extensions.
use c64_https.Common.{
  ℕ, suc, ◌+◌, ◌-◌, ◌≤◌, ◌<◌, true, false, Option, none, some, List, [], ◌∷◌, ◌++◌, length,
  length-append, drop, drop-append_length, All, ltb, ◌==◌, Result, ok, ◌≡◌, ◌≢◌, refl, sym, ap, ◌∙◌,
  arith,
}
use mathlib.Core.List.{append_assoc, append-nil}
use c64_https.HardwareChecks.Positions.{drop_more}
use c64_https.HardwareChecks.Names.Hello.{
  two, Extension, extension_bytes, extensions_bytes, data_lem, next_lem, length-extensions_bytes,
}
use c64_https.EvilListener.{ext_key_share, group_x25519}
use c64_https.EvilListener.ClientHello.{share_of, found, extensions_from}
use c64_https.EvilListener.ClientHello.Entries.{
  kind_here, size_here, x25519_entry, share_from-x25519,
}

-- The shares of a key_share extension: some of other groups, the one for x25519, and any bytes behind it.
pub record Shares : Type 0 where
  pub before : List Extension
  pub share : List ℕ
  pub behind : List ℕ

abbrev pub shares_bytes : Shares → List ℕ
shares_bytes s = extensions_bytes s.before ++ (extension_bytes (x25519_entry s.share) ++ s.behind)

abbrev pub key_share_extension : Shares → Extension
key_share_extension s = record {
  kind = ext_key_share;
  content = two (length (shares_bytes s)) ++ shares_bytes s;
}

abbrev pub IsOther : Extension → Type 0
IsOther e = e.kind ≢ ext_key_share

share_of-key_share :
    (s : Shares)
    → All (λ e. e.kind ≢ group_x25519) s.before
    → share_of ext_key_share (key_share_extension s).content ≡ ok (some s.share)
unfolding share_of
share_of-key_share s k =
    share_from-x25519 (suc (length (key_share_extension s).content)) (key_share_extension s).content
      2 s.before s.share s.behind
      (omega (
        arith,
        length-extensions_bytes s.before,
        length-append (extensions_bytes s.before)
            (extension_bytes (x25519_entry s.share) ++ s.behind),
      ))
      k refl

-- The step of the loop at an extension.
module _ (body : List ℕ) (p : ℕ) (e : Extension) (more : List ℕ)
    (at : drop p body ≡ extension_bytes e ++ more) where
  extensions_step :
      (fuel end : ℕ) (share here : Option (List ℕ))
      → p < end
      → share_of e.kind e.content ≡ ok here
      → extensions_from (suc fuel) body p end share
        ≡ extensions_from fuel body (p + 4 + length e.content) end (found here share)
  unfolding extensions_from
  extensions_step fuel end share here lt h =
      let inside : ltb p end ≡ true = ground arith in
      rw
        (
          extensions_from,
          inside,
          kind_here body p e more at,
          size_here body p e more at,
          data_lem body p e more at,
          h,
        )
        refl

share_of-other : (e : Extension) → IsOther e → share_of e.kind e.content ≡ ok none
unfolding share_of
share_of-other e h =
    let other : (e.kind == ext_key_share) ≡ false = ground arith in rw (share_of, other) refl

-- The loop passes over extensions of other kinds.
extensions_from-others :
    (es : List Extension) (fuel : ℕ) (body : List ℕ) (p end : ℕ) (share : Option (List ℕ))
    (more : List ℕ)
    → All IsOther es
    → drop p body ≡ extensions_bytes es ++ more
    → p + length (extensions_bytes es) ≤ end
    → extensions_from (length es + fuel) body p end share
      ≡ extensions_from fuel body (p + length (extensions_bytes es)) end share
unfolding extensions_bytes
extensions_from-others [] fuel body p end share more o at h =
    let f : 0 + fuel ≡ fuel = omega arith in let q : p + 0 ≡ p = omega arith in rw (f, q) refl
extensions_from-others (e ∷ es) fuel body p end share more o at h =
    let behind : List ℕ = extensions_bytes es ++ more in
    let at' : drop p body ≡ extension_bytes e ++ behind =
      at ∙ append_assoc (extension_bytes e) (extensions_bytes es) more in
    let n = length-append (extension_bytes e) (extensions_bytes es) in
    let count : suc (length es) + fuel ≡ suc (length es + fuel) = omega arith in
    rw count (
      extensions_step body p e behind at' (length es + fuel) end share none (omega arith)
        (share_of-other e o.0)
      ∙ extensions_from-others es fuel body (p + 4 + length e.content) end share more o.1
          (next_lem body p e behind at') (omega arith)
      ∙ ap (λ t. extensions_from fuel body t end share) (omega arith))

extensions_from_done :
    (fuel : ℕ) (body : List ℕ) (p end : ℕ) (share : Option (List ℕ))
    → ltb p end ≡ false
    → extensions_from (suc fuel) body p end share ≡ ok share
unfolding extensions_from
extensions_from_done fuel body p end share h = rw (extensions_from, h) refl

abbrev pub Found : Type 0
Found = Result (Option (List ℕ))

-- Of extensions one of which is a key_share, its share for x25519 is left.
pub extensions_from-key_share :
    (before after : List Extension) (s : Shares) (fuel : ℕ) (body : List ℕ) (p : ℕ)
    → All IsOther before
    → All IsOther after
    → All (λ e. e.kind ≢ group_x25519) s.before
    → (let exts =
          extensions_bytes before
          ++ (extension_bytes (key_share_extension s) ++ extensions_bytes after) in
        (drop p body ≡ exts) × (length before + suc (length after) < fuel)
        → extensions_from fuel body p (p + length exts) none ≡ ok (some s.share))
unfolding extensions_bytes
extensions_from-key_share before after s fuel body p ob oa k (at, enough) =
    let e : Extension = key_share_extension s in
    let behind : List ℕ = extension_bytes e ++ extensions_bytes after in
    let exts : List ℕ = extensions_bytes before ++ behind in
    let end : ℕ = p + length exts in
    let room : ℕ = fuel - suc (length before + suc (length after)) in
    let p1 : ℕ = p + length (extensions_bytes before) in
    let p2 : ℕ = p1 + 4 + length e.content in
    let n1 = length-append (extensions_bytes before) behind in
    let n2 = length-append (extension_bytes e) (extensions_bytes after) in
    let at1 : drop p1 body ≡ behind =
      drop_more body p exts at (length (extensions_bytes before))
      ∙ drop-append_length (length (extensions_bytes before)) (extensions_bytes before) behind
          refl in
    let at2 : drop p2 body ≡ extensions_bytes after ++ [] =
      next_lem body p1 e (extensions_bytes after) at1 ∙ sym (append-nil (extensions_bytes after)) in
    let split : fuel ≡ length before + suc (length after + suc room) = omega arith in
    let past : ltb (p2 + length (extensions_bytes after)) end ≡ false = ground arith in
    let last : extensions_from (suc room) body (p2 + length (extensions_bytes after)) end
          (some s.share)
        ≡ ok (some s.share) =
      extensions_from_done room body (p2 + length (extensions_bytes after)) end (some s.share)
        past in
    rw split (
      extensions_from-others before (suc (length after + suc room)) body p end none behind ob at
        (omega arith)
      ∙ extensions_step body p1 e (extensions_bytes after) at1 (length after + suc room) end none
          (some s.share) (omega arith) (share_of-key_share s k)
      ∙ extensions_from-others after (suc room) body p2 end (some s.share) [] oa at2 (omega arith)
      ∙ last)
