-- ===== src/TrustStore/RoundTrip.antt =====
-- tools/trust_store.py: a file that `encode` writes decodes to what was written, and encoding what
-- `decode` has read gives the file back.
use c64_https.Common.{
  ℕ, suc, ◌+◌, ◌-◌, ◌*◌, ◌/◌, ◌%◌, ◌≤◌, ◌≡◌, refl, sym, ap, ◌∙◌, List, [], ◌∷◌, ◌++◌, map, length,
  take, drop, All, length-append, length-take, take-append_length, drop-append_length, ok, arith,
}
use c64_https.Common.Bytes.{index, pack_u16, unpack_u16}
use c64_https.TrustStore.Hashlib.{Hash}
use c64_https.TrustStore.{Record, of_record, checksum, encode, decode}
use c64_https.TrustStore.Codec.{
  IsPackable, stored, packed_all, pack_all_lem, length-packed_all, unpack_all-packed_all,
}
use c64_https.TrustStore.Files.{IsFile, decode-IsFile}

length-map {ℓ κ} :
    {A : Type ℓ} {B : Type κ} (f : A → B) (xs : List A) → length (map f xs) ≡ length xs
length-map f [] = refl
length-map f (x ∷ xs) = ap suc (length-map f xs)

-- What `encode` writes before the checksum.
abbrev pub body : ℕ → List Record → List ℕ
body gen recs =
    0x43
    ∷ 0x36
    ∷ 0x54
    ∷ 0x53
    ∷ 1
    ∷ (gen % 65536 % 256)
    ∷ (gen % 65536 / 256)
    ∷ length recs
    ∷ packed_all recs

module _ (sha : Hash) where
  pub length-checksum : (m : List ℕ) → length (checksum sha m) ≡ 8
  unfolding checksum
  length-checksum m = length-take 8 (sha.digest m) ∙ omega (arith, sha.length_digest m)

  pub encode_lem :
      (gen : ℕ) (recs : List Record)
      → All IsPackable recs
      → length recs ≤ 255
      → encode sha gen (map of_record recs) ≡ ok (body gen recs ++ checksum sha (body gen recs))
  unfolding encode pack_u16
  encode_lem gen recs h room = rw (pack_all_lem recs h) (ground (arith, length-map of_record recs))

  body-IsFile :
      (gen : ℕ) (recs : List Record)
      → All IsPackable recs
      → length recs ≤ 32
      → IsFile sha
          (body gen recs ++ checksum sha (body gen recs))
          (length recs)
          (gen % 65536)
          (map stored recs)
  unfolding index unpack_u16
  body-IsFile gen recs h room =
      let b = body gen recs in
      let sum = checksum sha b in
      let width : length b ≡ 8 + length recs * 64 = omega (arith, length-packed_all recs h) in
      let whole : length (b ++ sum) - 8 ≡ length b =
        omega (arith, length-append b sum, length-checksum b) in
      record {
        room = room;
        len = length-append b sum ∙ omega (arith, width, length-checksum b);
        starts = refl;
        version_at = refl;
        count_at = refl;
        sum_at =
            ap (checksum sha)
              (ap (λ k. take k (b ++ sum)) whole ∙ take-append_length (length b) b sum refl)
            ∙ sym (ap (λ k. drop k (b ++ sum)) whole ∙ drop-append_length (length b) b sum refl);
        gen_at = ap ok (omega arith);
        recs_at = unpack_all-packed_all recs 0 (b ++ sum) sum h refl;
      }

  -- At most 32 records whose fields fit are encoded, under any generation, and the file decodes to
  -- the generation modulo 65,536 and the records as 64 bytes keep them, their display cut or filled
  -- to 12.
  pub decode-encode :
      (gen : ℕ) (recs : List Record)
      → All IsPackable recs
      → length recs ≤ 32
      → (file : List ℕ) × (encode sha gen (map of_record recs) ≡ ok file)
        × (decode sha file ≡ ok (gen % 65536, map stored recs))
  decode-encode gen recs h room = (
    body gen recs ++ checksum sha (body gen recs),
    encode_lem gen recs h (omega arith),
    decode-IsFile sha _ (length recs) _ _ (body-IsFile gen recs h room),
  )
