-- ===== src/TrustStore/Codec.antt =====
-- What the record codec and the file codec of tools/trust_store.py do to one another.
use c64_https.Common.{
  ℕ, ◌+◌, ◌-◌, ◌*◌, ◌/◌, ◌%◌, ◌<◌, ◌≡◌, refl, sym, ap, ◌∙◌, List, [], ◌∷◌, ◌++◌, map, length, take,
  drop, slice, replicate, All, length-append, length-take, length-replicate, take-append_length,
  drop-append_length, drop-append_add, take_all, drop-drop, ok, arith,
}
use mathlib.Core.List.{append_assoc}
use c64_https.Common.Bytes.{pack_u16}
use c64_https.TrustStore.{
  Record, of_record, padded, pack, unpack, pack_all, unpack_all, hdr_size, rec_size,
}

-- A record that `pack` accepts.
pub record IsPackable (r : Record) : Type 0 where
  pub key_len : length r.key ≡ 16
  pub spki_len : length r.spki ≡ 32
  pub mode_u8 : r.mode < 256
  pub flags_u8 : r.flags < 256
  pub uses_u16 : r.uses < 65536

-- The record as its 64 bytes keep it: the display cut or filled to 12 bytes.
abbrev pub stored : Record → Record
stored r = record r { display = padded r.display }

abbrev pub packed : Record → List ℕ
packed r =
    r.key ++ (r.spki ++ (r.mode ∷ r.flags ∷ (r.uses % 256) ∷ (r.uses / 256) ∷ padded r.display))

pub length-padded : (d : List ℕ) → length (padded d) ≡ 12
unfolding padded
length-padded d =
    length-append (take 12 d) (replicate (12 - length (take 12 d)) 0)
    ∙ omega (arith, length-replicate {A = ℕ} (12 - length (take 12 d)) 0, length-take 12 d)

pub pack_lem : (r : Record) → IsPackable r → pack r ≡ ok (packed r)
unfolding pack pack_u16
pack_lem r h = ground arith

pub length-packed : (r : Record) → IsPackable r → length (packed r) ≡ 64
length-packed r h =
    length-append r.key _
    ∙ omega (
      arith,
      length-append r.spki (r.mode ∷ r.flags ∷ (r.uses % 256) ∷ (r.uses / 256) ∷ padded r.display),
      length-padded r.display,
      h.key_len,
      h.spki_len,
    )

-- `unpack` reads its fields at their offsets.
unpack_parts :
    (raw k s d : List ℕ) (m f a b : ℕ)
    → take 16 raw ≡ k
    → slice 16 48 raw ≡ s
    → drop 48 raw ≡ m ∷ f ∷ a ∷ b ∷ d
    → slice 52 64 raw ≡ d
    → unpack raw
      ≡ ok (record { key = k; spki = s; mode = m; flags = f; uses = a + 256 * b; display = d })
unfolding unpack
unpack_parts raw k s d m f a b hk hs hm hd = rw (hm, hk, hs, hd)

pub unpack-packed : (r : Record) → IsPackable r → unpack (packed r) ≡ ok (stored r)
unpack-packed r h =
    let disp = padded r.display in
    let tail = r.mode ∷ r.flags ∷ (r.uses % 256) ∷ (r.uses / 256) ∷ disp in
    unpack_parts (packed r) r.key r.spki disp r.mode r.flags (r.uses % 256) (r.uses / 256)
      (take-append_length 16 r.key (r.spki ++ tail) h.key_len)
      (ap (take 32) (drop-append_length 16 r.key (r.spki ++ tail) h.key_len)
        ∙ take-append_length 32 r.spki tail h.spki_len)
      (drop-append_add 16 32 r.key (r.spki ++ tail) h.key_len
        ∙ drop-append_length 32 r.spki tail h.spki_len)
      (ap (take 12) (
          drop-append_add 16 36 r.key (r.spki ++ tail) h.key_len
          ∙ drop-append_add 32 4 r.spki tail h.spki_len)
        ∙ take_all 12 disp (omega (arith, length-padded r.display)))
    ∙ ground arith

abbrev pub packed_all : List Record → List ℕ
packed_all [] = []
packed_all (r ∷ rs) = packed r ++ packed_all rs

pub pack_all_lem :
    (recs : List Record)
    → All IsPackable recs
    → pack_all (map of_record recs) ≡ ok (packed_all recs)
unfolding pack_all
pack_all_lem [] h = refl
pack_all_lem (r ∷ rs) h = rw (pack_lem r h.0, pack_all_lem rs h.1)

pub length-packed_all :
    (recs : List Record) → All IsPackable recs → length (packed_all recs) ≡ 64 * length recs
length-packed_all [] h = omega arith
length-packed_all (r ∷ rs) h =
    length-append (packed r) (packed_all rs)
    ∙ omega (arith, length-packed r h.0, length-packed_all rs h.1)

record_at : ℕ → List ℕ → List ℕ
record_at i blob = slice (hdr_size + i * rec_size) (hdr_size + (i + 1) * rec_size) blob

record_at_lem :
    (i : ℕ) (blob p rest : List ℕ)
    → length p ≡ 64
    → drop (8 + i * 64) blob ≡ p ++ rest
    → (record_at i blob ≡ p) × (drop (8 + (i + 1) * 64) blob ≡ rest)
unfolding record_at
record_at_lem i blob p rest hp e =
    let width : 8 + (i + 1) * 64 - (8 + i * 64) ≡ 64 = omega arith in
    let next : 8 + (i + 1) * 64 ≡ (8 + i * 64) + 64 = omega arith in
    (
      ap (λ k. take k (drop (8 + i * 64) blob)) width
          ∙ ap (take 64) e
          ∙ take-append_length 64 p rest hp,
      ap (λ k. drop k blob) next
          ∙ sym (drop-drop 64 (8 + i * 64) blob)
          ∙ ap (drop 64) e
          ∙ drop-append_length 64 p rest hp,
    )

-- The records of a file that begins, from record `i` on, with packed records.
pub unpack_all-packed_all :
    (recs : List Record) (i : ℕ) (blob rest : List ℕ)
    → All IsPackable recs
    → drop (8 + i * 64) blob ≡ packed_all recs ++ rest
    → unpack_all i (length recs) blob ≡ ok (map stored recs)
unfolding unpack_all record_at
unpack_all-packed_all [] i blob rest h e = refl
unpack_all-packed_all (r ∷ rs) i blob rest h e =
    let (here, next) =
      record_at_lem i blob (packed r) (packed_all rs ++ rest) (length-packed r h.0)
        (e ∙ append_assoc (packed r) (packed_all rs) rest) in
    rw (here, unpack-packed r h.0, unpack_all-packed_all rs (i + 1) blob rest h.1 next)
