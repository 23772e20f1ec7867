-- ===== src/TrustStore/Accepted.antt =====
-- tools/trust_store.py: what `decode` accepts is what `encode` writes, byte for byte, and what it
-- refuses it refuses with one of three codes.
use c64_https.Common.{
  ℕ, zero, suc, ◌+◌, ◌-◌, ◌*◌, ◌/◌, ◌%◌, ◌≤◌, ◌<◌, ◌≡◌, refl, sym, ap, ◌∙◌, List, [], ◌∷◌, ◌++◌,
  map, length, take, drop, slice, All, length-take, length-drop, take_all, take-append-drop,
  drop-drop, take-add, All-take, All-drop, ok, ◌>>=◌, arith, >>=-eq-ok,
}
use mathlib.Core.Path.{subst, ap₂}
use mathlib.Core.List.{append-nil}
use c64_https.Common.Bytes.{IsByte, index, unpack_u16}
use c64_https.TrustStore.Hashlib.{Hash}
use c64_https.TrustStore.{
  Record, of_record, padded, unpack, unpack_all, unpack_bbh, checksum, encode, decode,
}
use c64_https.TrustStore.Codec.{IsPackable, packed, packed_all}
use c64_https.TrustStore.Files.{IsFile, decode→IsFile}
use c64_https.TrustStore.RoundTrip.{body, encode_lem}

-- A record that is read from 64 bytes can be packed, into those bytes.
IsRead : List ℕ → Record → Type 0
IsRead raw r = IsPackable r × (packed r ≡ raw)

pub padded_id : (d : List ℕ) → length d ≡ 12 → padded d ≡ d
unfolding padded
padded_id d h = rw (take_all 12 d (omega arith), h) (append-nil d)

IsRead-parts :
    (raw t : List ℕ) (m f a b : ℕ)
    → length raw ≡ 64
    → m < 256
    → f < 256
    → a < 256
    → b < 256
    → drop 48 raw ≡ m ∷ f ∷ a ∷ b ∷ t
    → IsRead raw (record {
      key = take 16 raw;
      spki = slice 16 48 raw;
      mode = m;
      flags = f;
      uses = a + 256 * b;
      display = slice 52 64 raw;
    })
unfolding IsRead
IsRead-parts raw t m f a b len hm hf ha hb e = (
  record {
    key_len = length-take 16 raw ∙ omega arith;
    spki_len = length-take 32 (drop 16 raw) ∙ omega (arith, length-drop 16 raw);
    mode_u8 = hm;
    flags_u8 = hf;
    uses_u16 = omega arith;
  },
  same,
)
  where
    rest : slice 52 64 raw ≡ t
    rest =
        ap (take 12) (sym (drop-drop 4 48 raw) ∙ ap (drop 4) e)
        ∙ take_all 12 t (omega (arith, length-drop 48 raw, ap length e))

    last : padded (slice 52 64 raw) ≡ t
    last = ap padded rest ∙ padded_id t (omega (arith, length-drop 48 raw, ap length e))

    middle : ((a + 256 * b) % 256 ≡ a) × ((a + 256 * b) / 256 ≡ b)
    middle = (omega arith, omega arith)

    same :
        packed (record {
          key = take 16 raw;
          spki = slice 16 48 raw;
          mode = m;
          flags = f;
          uses = a + 256 * b;
          display = slice 52 64 raw;
        })
        ≡ raw
    same =
        rw (middle.0, middle.1, last, ← e, ← drop-drop 32 16 raw)
          (ap (λ l. take 16 raw ++ l) (take-append-drop 32 (drop 16 raw)) ∙ take-append-drop 16 raw)

unpack-IsRead :
    (raw : List ℕ) (r : Record)
    → length raw ≡ 64
    → All IsByte raw
    → unpack raw ≡ ok r
    → IsRead raw r
unfolding unpack
unpack-IsRead raw r len by h = go (drop 48 raw) refl (All-drop IsByte 48 raw by) h
  where
    go :
        (d : List ℕ)
        → drop 48 raw ≡ d
        → All IsByte d
        → ((unpack_bbh d >>= λ x. ok (record {
          key = take 16 raw;
          spki = slice 16 48 raw;
          mode = x.0;
          flags = x.1;
          uses = x.2;
          display = slice 52 64 raw;
        }))
            ≡ ok r)
        → IsRead raw r
    go (m ∷ f ∷ a ∷ b ∷ t) e all q =
        let (hm, (hf, (ha, (hb, _)))) = all in
        subst (IsRead raw) (cc) (IsRead-parts raw t m f a b len hm hf ha hb e)
    go _ e all q = cc

pub slice_len :
    (i k : ℕ) (blob : List ℕ)
    → 8 + (i + suc k) * 64 ≤ length blob
    → length (slice (8 + i * 64) (8 + (i + 1) * 64) blob) ≡ 64
slice_len i k blob room =
    length-take (8 + (i + 1) * 64 - (8 + i * 64)) (drop (8 + i * 64) blob)
    ∙ omega (arith, length-drop (8 + i * 64) blob)

-- The next `suc k` records' bytes are those of the first and those of the other `k`.
slice_step :
    (i k : ℕ) (blob : List ℕ)
    → take (suc k * 64) (drop (8 + i * 64) blob)
      ≡ slice (8 + i * 64) (8 + (i + 1) * 64) blob ++ take (k * 64) (drop (8 + (i + 1) * 64) blob)
slice_step i k blob =
    let here = drop (8 + i * 64) blob in
    let e : suc k * 64 ≡ 64 + k * 64 = omega arith in
    let w : 64 ≡ 8 + (i + 1) * 64 - (8 + i * 64) = omega arith in
    let n : (8 + i * 64) + 64 ≡ 8 + (i + 1) * 64 = omega arith in
    ap (λ m. take m here) e
    ∙ take-add 64 (k * 64) here
    ∙ ap₂ (λ a b. a ++ b) (ap (λ m. take m here) w)
        (ap (take (k * 64)) (drop-drop 64 (8 + i * 64) blob ∙ ap (λ m. drop m blob) n))

pub unpack_all_read :
    (i k : ℕ) (blob : List ℕ) (recs : List Record)
    → 8 + (i + k) * 64 ≤ length blob
    → All IsByte blob
    → unpack_all i k blob ≡ ok recs
    → All IsPackable recs
      × (length recs ≡ k)
      × (packed_all recs ≡ take (k * 64) (drop (8 + i * 64) blob))
unfolding unpack_all IsRead
unpack_all_read i zero blob [] room by h = (tt, refl, refl)
unpack_all_read i zero blob (r ∷ rs) room by h = cc
unpack_all_read i (suc k) blob recs room by h =
    let raw = slice (8 + i * 64) (8 + (i + 1) * 64) blob in
    let (r, er, h1) = >>=-eq-ok (unpack raw) _ h in
    let (rs, ers, h2) = >>=-eq-ok (unpack_all (i + 1) k blob) _ h1 in
    let (packs, same) =
      unpack-IsRead raw r (slice_len i k blob room)
        (All-take IsByte _ _ (All-drop IsByte _ blob by)) er in
    let (all, len, bytes) = unpack_all_read (i + 1) k blob rs (omega arith) by ers in
    let e : r ∷ rs ≡ recs = cc in
    subst
      (λ l.
        All IsPackable l
        × (length l ≡ suc k)
        × (packed_all l ≡ take (suc k * 64) (drop (8 + i * 64) blob)))
      e ((packs, all), ap suc len, ap₂ (λ a b. a ++ b) same bytes ∙ sym (slice_step i k blob))

module _ (sha : Hash) where
  -- A file has its eight header bytes, its records and its checksum, and nothing else.
  body-file :
      (blob : List ℕ) (n gen : ℕ) (recs : List Record)
      → IsFile sha blob n gen recs
      → All IsByte blob
      → (length recs ≡ n) × All IsPackable recs × (body gen recs ≡ take (length blob - 8) blob)
  unfolding index unpack_u16
  body-file (a ∷ b ∷ c ∷ d ∷ v ∷ g0 ∷ g1 ∷ m ∷ t) n gen recs f by =
      let blob = a ∷ b ∷ c ∷ d ∷ v ∷ g0 ∷ g1 ∷ m ∷ t in
      let (all, len, bytes) = unpack_all_read 0 n blob recs (omega (arith, f.len)) by f.recs_at in
      let w : length blob - 8 ≡ suc (suc (suc (suc (suc (suc (suc (suc (n * 64)))))))) =
        omega (arith, f.len) in
      let (_, (_, (_, (_, (_, (b0, (b1, _))))))) = by in
      let e : g0 + 256 * g1 ≡ gen = ground (arith, f.gen_at) in
      let lo : gen % 65536 % 256 ≡ g0 = omega arith in
      let hi : gen % 65536 / 256 ≡ g1 = omega arith in
      (
        len,
        all,
        ground (arith, bytes, len, lo, hi, f.starts, f.version_at, f.count_at)
            ∙ sym (ap (λ k. take k blob) w),
      )
  body-file _ n gen recs f by = absurd (omega (arith, f.len))

  -- Encoding the generation and the records that a file of bytes decodes to gives that file back, every
  -- byte of it.
  pub encode-decode :
      (file : List ℕ) (gen : ℕ) (recs : List Record)
      → All IsByte file
      → decode sha file ≡ ok (gen, recs)
      → encode sha gen (map of_record recs) ≡ ok file
  encode-decode file gen recs by h =
      let (n, f) = decode→IsFile sha file gen recs h in
      let (len, all, same) = body-file file n gen recs f by in
      encode_lem sha gen recs all (omega (arith, f.room))
      ∙ ap ok (
          ap (λ l. l ++ checksum sha l) same
          ∙ ap (λ l. take (length file - 8) file ++ l) f.sum_at
          ∙ take-append-drop (length file - 8) file)
