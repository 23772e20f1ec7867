-- ===== src/TrustStore/Refusals.antt =====
-- tools/trust_store.py: what `decode` raises. Its reads are in range, so that it raises nothing but
-- a `StoreError`, and a file that was cut short is a FORMAT error.
use c64_https.Common.{
  ℕ, zero, suc, ◌+◌, ◌-◌, ◌*◌, ◌≤◌, ◌<◌, ◌≡◌, refl, sym, ◌∙◌, List, [], ◌∷◌, ◌++◌, length, take,
  drop, slice, length-append, length-take, length-drop, take_all, Bool, true, false, Result, ok,
  raised, ◌>>◌, guard, leb, ◌==◌, arith, list_eq, store_error, Fault, eq→list_eq, take-append_le,
  leb→le, ==_iff,
}
use native.Mathlib.Decide.{dec_lt}
use c64_https.Common.Bytes.{index, index_total, index-append_lt, unpack_u16}
use c64_https.TrustStore.Hashlib.{Hash}
use c64_https.TrustStore.{
  Record, magic, version, unpack, unpack_all, unpack_bbh, checksum, decode, decode_cut, r_format,
  r_version, r_checksum,
}
use c64_https.TrustStore.Files.{decode→IsFile}

unpack_bbh_total : (xs : List ℕ) → 4 ≤ length xs → (v : ℕ × ℕ × ℕ) × (unpack_bbh xs ≡ ok v)
unpack_bbh_total (a ∷ b ∷ c ∷ d ∷ t) h = ((a, b, c + 256 * d), refl)
unpack_bbh_total _ h = absurd (omega arith)

unpack_u16_total : (xs : List ℕ) → 2 ≤ length xs → (v : ℕ) × (unpack_u16 xs ≡ ok v)
unfolding unpack_u16
unpack_u16_total (a ∷ b ∷ t) h = (a + 256 * b, refl)
unpack_u16_total _ h = absurd (omega arith)

unpack_total : (raw : List ℕ) → 52 ≤ length raw → (r : Record) × (unpack raw ≡ ok r)
unfolding unpack
unpack_total raw h =
    let (v, e) = unpack_bbh_total (drop 48 raw) (omega (arith, length-drop 48 raw)) in
    (
      record {
        key = take 16 raw;
        spki = slice 16 48 raw;
        mode = v.0;
        flags = v.1;
        uses = v.2;
        display = slice 52 64 raw;
      },
      rw e,
    )

pub unpack_all_total :
    (i k : ℕ) (blob : List ℕ)
    → 8 + (i + k) * 64 ≤ length blob
    → (recs : List Record) × (unpack_all i k blob ≡ ok recs)
unfolding unpack_all
unpack_all_total i zero blob h = ([], refl)
unpack_all_total i (suc k) blob h =
    let raw = slice (8 + i * 64) (8 + (i + 1) * 64) blob in
    let (r, er) = unpack_total raw (
      omega (
        arith,
        length-take (8 + (i + 1) * 64 - (8 + i * 64)) (drop (8 + i * 64) blob),
        length-drop (8 + i * 64) blob,
      )) in
    let (rs, ers) = unpack_all_total (i + 1) k blob (omega arith) in (r ∷ rs, rw (er, ers))

-- What a call of `decode` ends in: a value, or a `StoreError` with one of three codes.
pub data Outcome : Result (ℕ × List Record) → Type 0 where
  decoded : (d : ℕ × List Record) → Outcome (ok d)
  refused_format : Outcome (raised (store_error r_format))
  refused_version : Outcome (raised (store_error r_version))
  refused_checksum : Outcome (raised (store_error r_checksum))

guard-Outcome :
    (b : Bool) (e : Fault) (m : Result (ℕ × List Record))
    → Outcome (raised e)
    → (b ≡ true → Outcome m)
    → Outcome (guard b e >> m)
guard-Outcome true e m he hm = hm refl
guard-Outcome false e m he hm = he

module _ (sha : Hash) where
  cut-Outcome : (blob : List ℕ) → Outcome (decode_cut sha blob)
  unfolding decode_cut
  cut-Outcome blob = guard-Outcome (leb 16 (length blob)) _ _ refused_format λ b1.
      let long : 16 ≤ length blob = leb→le 16 (length blob) b1 in
      let (v, ev) = index_total blob 4 (omega arith) in
      let (n, en) = index_total blob 7 (omega arith) in
      let (g, eg) = unpack_u16_total (drop 5 blob) (omega (arith, length-drop 5 blob)) in
      guard-Outcome (list_eq (take 4 blob) magic) _ _ refused_format λ _. rw ev (
        guard-Outcome (v == version) _ _ refused_version λ _. rw en (
          guard-Outcome (length blob == 8 + n * 64 + 8) _ _ refused_format λ b4.
            let size : length blob ≡ 8 + n * 64 + 8 = (==_iff _ _).0 b4 in
            let (rs, er) = unpack_all_total 0 n blob (omega arith) in
            guard-Outcome
              (list_eq (checksum sha (take (length blob - 8) blob)) (drop (length blob - 8) blob)) _
              _ refused_checksum λ _. rw (eg, er) (decoded (g, rs))))

  -- On every list of numbers `decode` returns, or raises a `StoreError` of code FORMAT, VERSION or
  -- CHECKSUM, and nothing else.
  pub decode-Outcome : (input : List ℕ) → Outcome (decode sha input)
  unfolding decode
  decode-Outcome input = cut-Outcome (take 2065 input)

  cut_short :
      (front : List ℕ) (n : ℕ)
      → take 4 front ≡ magic
      → index front 4 ≡ ok version
      → index front 7 ≡ ok n
      → 16 ≤ length front
      → length front < 16 + n * 64
      → decode_cut sha front ≡ raised (store_error r_format)
  unfolding decode_cut
  cut_short front n starts at4 at7 lo hi = rw (at4, at7) (ground (arith, eq→list_eq _ _ starts))

  cut_tiny :
      (front : List ℕ) → length front < 16 → decode_cut sha front ≡ raised (store_error r_format)
  unfolding decode_cut
  cut_tiny front h = ground arith

  -- Every proper prefix of a file that decodes is refused with FORMAT, the code that `select` takes for
  -- a torn save.
  pub decode-truncated :
      (front : List ℕ) (x : ℕ) (back : List ℕ) (gen : ℕ) (recs : List Record)
      → decode sha (front ++ (x ∷ back)) ≡ ok (gen, recs)
      → decode sha front ≡ raised (store_error r_format)
  unfolding decode
  decode-truncated front x back gen recs h =
      let rest = x ∷ back in
      let (n, f) = decode→IsFile sha (front ++ rest) gen recs h in
      let whole : length (front ++ rest) ≡ length front + length rest = length-append front rest in
      rw (take_all 2065 front (omega (arith, f.len, f.room))) (elim (dec_lt (length front) 16) [
        | yes tiny ↦ cut_tiny front tiny
        | no long ↦
            cut_short front n (sym (take-append_le 4 front rest (omega arith)) ∙ f.starts)
              (sym (index-append_lt 4 front rest (omega arith)) ∙ f.version_at)
              (sym (index-append_lt 7 front rest (omega arith)) ∙ f.count_at) (omega arith)
              (omega (arith, f.len))
      ])
