-- ===== src/TrustStore/Files.antt =====
-- The file codec of tools/trust_store.py: which byte strings are files, and what is written is read.
use c64_https.Common.{
  ℕ, ◌+◌, ◌-◌, ◌*◌, ◌≤◌, ◌≡◌, List, length, take, drop, length-take, take_all, list_eq, list_eq→eq,
  ok, leb, ◌==◌, arith, >>=-eq-ok, guard-eq-ok, eq→list_eq,
}
use c64_https.Common.Bytes.{index, unpack_u16}
use Prim.Native.Nat.{min}
use mathlib.Core.Path.{subst}
use c64_https.TrustStore.Hashlib.{Hash}
use c64_https.TrustStore.{Record, magic, version, unpack_all, checksum, decode_cut, decode}

-- The bytes of a slot file of `n` records, with what is read from them.
pub record IsFile (sha : Hash) (blob : List ℕ) (n gen : ℕ) (recs : List Record) : Type 0 where
  pub room : n ≤ 32
  pub len : length blob ≡ 16 + n * 64
  pub starts : take 4 blob ≡ magic
  pub version_at : index blob 4 ≡ ok version
  pub count_at : index blob 7 ≡ ok n
  pub sum_at : checksum sha (take (length blob - 8) blob) ≡ drop (length blob - 8) blob
  pub gen_at : unpack_u16 (drop 5 blob) ≡ ok gen
  pub recs_at : unpack_all 0 n blob ≡ ok recs

module _ (sha : Hash) where
  pub decode_cut-IsFile :
      (blob : List ℕ) (n gen : ℕ) (recs : List Record)
      → IsFile sha blob n gen recs
      → decode_cut sha blob ≡ ok (gen, recs)
  unfolding decode_cut
  decode_cut-IsFile blob n gen recs f =
      rw (f.version_at, f.count_at, f.gen_at, f.recs_at)
        (ground (arith, eq→list_eq _ _ f.starts, eq→list_eq _ _ f.sum_at))

  pub decode-IsFile :
      (blob : List ℕ) (n gen : ℕ) (recs : List Record)
      → IsFile sha blob n gen recs
      → decode sha blob ≡ ok (gen, recs)
  unfolding decode
  decode-IsFile blob n gen recs f =
      rw (take_all 2065 blob (omega (arith, f.len, f.room))) (decode_cut-IsFile blob n gen recs f)

  cut_bytes :
      (blob : List ℕ) (gen : ℕ) (recs : List Record)
      → length blob ≤ 2065
      → decode_cut sha blob ≡ ok (gen, recs)
      → (n : ℕ) × IsFile sha blob n gen recs
  unfolding decode_cut
  cut_bytes blob gen recs hl h =
      let (_, h1) = guard-eq-ok (leb 16 (length blob)) _ _ h in
      let (b2, h2) = guard-eq-ok (list_eq (take 4 blob) magic) _ _ h1 in
      let (v, ev, h3) = >>=-eq-ok (index blob 4) _ h2 in
      let (b4, h4) = guard-eq-ok (v == version) _ _ h3 in
      let (n, en, h5) = >>=-eq-ok (index blob 7) _ h4 in
      let (b6, h6) = guard-eq-ok (length blob == 8 + n * 64 + 8) _ _ h5 in
      let (b7, h7) =
        guard-eq-ok
          (list_eq (checksum sha (take (length blob - 8) blob)) (drop (length blob - 8) blob)) _ _
          h6 in
      let (g, eg, h8) = >>=-eq-ok (unpack_u16 (drop 5 blob)) _ h7 in
      let (rs, er, h9) = >>=-eq-ok (unpack_all 0 n blob) _ h8 in
      let size : length blob ≡ 8 + n * 64 + 8 = ground arith in
      (
        n,
        record {
          room = omega arith;
          len = omega arith;
          starts = list_eq→eq _ _ b2;
          version_at = ground arith;
          count_at = en;
          sum_at = list_eq→eq _ _ b7;
          gen_at = ground arith;
          recs_at = ground arith;
        },
      )

  -- The bytes of an accepted input are the whole input: a longer one never fits its count.
  pub decode→IsFile :
      (input : List ℕ) (gen : ℕ) (recs : List Record)
      → decode sha input ≡ ok (gen, recs)
      → (n : ℕ) × IsFile sha input n gen recs
  unfolding decode
  decode→IsFile input gen recs h =
      let cut = take 2065 input in
      let size : length cut ≡ min 2065 (length input) = length-take 2065 input in
      let (n, f) = cut_bytes cut gen recs (omega arith) h in
      let whole : take 2065 input ≡ input = take_all 2065 input (omega (arith, f.len, f.room)) in
      (n, subst (λ l. IsFile sha l n gen recs) whole f)
