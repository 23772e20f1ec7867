-- ===== src/Runs/Slots.antt =====
-- Runs of the trust store on concrete files.
use c64_https.Common.{
  ◌++◌, zero, suc, inr, ℕ, ◌+◌, ◌%◌, ◌≡◌, refl, some, List, [], ◌∷◌, map, take, replicate, All,
  list_eq, ok, arith,
}
use c64_https.Common.Bytes.{IsByte, index, pack_u16, unpack_u16}
use c64_https.Runs.{
  sample_bytes, toy_hash, host_a, host_bb, sample, sample-IsPackable, all_bytes-All, file_a,
  file_ab, selected_a,
}
use c64_https.TrustStore.{
  Record, of_record, lower_ascii, host_bytes, host_key, padded, pack, unpack, pack_all, unpack_all,
  checksum, encode, decode_cut, decode,
}
use c64_https.TrustStore.Codec.{stored}
use c64_https.TrustStore.RoundTrip.{decode-encode}
use c64_https.TrustStore.Accepted.{encode-decode}
use c64_https.TrustStore.Refusals.{Outcome, decode-Outcome}
use c64_https.TrustStore.Slots.{
  absent, content, Selection, valid, st_valid, serial_newer, slot_result, choose, select, replace,
  put_record, lookup, save,
}
use c64_https.TrustStore.Slots.Safety.{Took, select-Took}
use c64_https.TrustStore.Slots.Saved.{write_slot}
use c64_https.TrustStore.Slots.Saving.{save_returns}
use c64_https.TrustStore.Slots.Durable.{Kept, save-select, save-lookup_other, save-torn}

decode_a : decode toy_hash (file_a 7) ≡ ok (7, sample 1 ∷ [])
unfolding decode decode_cut checksum index unpack_u16 unpack_all unpack list_eq
decode_a = refl

select_a : select toy_hash (content (file_a 7)) absent ≡ ok selected_a
unfolding select choose slot_result
select_a = rw decode_a refl

file_a_bytes : All IsByte (file_a 7)
file_a_bytes = all_bytes-All (file_a 7) refl

decode-encode_example :
    (file : List ℕ) × (encode toy_hash 7 (map of_record (sample 1 ∷ [])) ≡ ok file)
    × (decode toy_hash file ≡ ok (7 % 65536, map stored (sample 1 ∷ [])))
decode-encode_example =
    decode-encode toy_hash 7 (sample 1 ∷ []) (sample-IsPackable 1, tt) (omega arith)

encode-decode_example : encode toy_hash 7 (map of_record (sample 1 ∷ [])) ≡ ok (file_a 7)
encode-decode_example = encode-decode toy_hash (file_a 7) 7 (sample 1 ∷ []) file_a_bytes decode_a

decode-Outcome_example : Outcome (decode toy_hash (file_a 7))
decode-Outcome_example = decode-Outcome toy_hash (file_a 7)

select-Took_example : Took toy_hash (content (file_a 7)) absent selected_a
select-Took_example =
    select-Took toy_hash (content (file_a 7)) absent selected_a tt tt select_a refl

-- The record of `host_bb` goes to the free slot.
save_bb : save toy_hash (content (file_a 7)) absent host_bb (sample 0) ≡ ok (1, file_ab 8)
unfolding save lookup put_record replace host_key host_bytes lower_ascii encode pack_all pack padded
    checksum pack_u16 list_eq
save_bb = rw select_a refl

save-select_example :
    (key : List ℕ) × (sel : Selection) × (sel' : Selection) × (host_key toy_hash host_bb ≡ ok key)
    × (select toy_hash (content (file_a 7)) absent ≡ ok sel)
    × (select toy_hash
          (write_slot 1 (file_ab 8) (content (file_a 7)) absent).0
          (write_slot 1 (file_ab 8) (content (file_a 7)) absent).1
        ≡ ok sel')
    × (sel'.state ≡ st_valid)
    × (sel'.slot ≡ 1)
    × (sel'.gen ≡ (sel.gen + 1) % 65536)
    × (lookup toy_hash sel' host_bb ≡ ok (some (stored (record (sample 0) { key = key }))))
save-select_example =
    save-select toy_hash (content (file_a 7)) absent host_bb (sample 0) 1 (file_ab 8) tt tt save_bb

abbrev selected_ab : Selection
selected_ab = valid 1 (8, sample 1 ∷ sample 2 ∷ []) (0, 0)

decode_ab : decode toy_hash (file_ab 8) ≡ ok (8, sample 1 ∷ sample 2 ∷ [])
unfolding decode decode_cut checksum index unpack_u16 unpack_all unpack list_eq
decode_ab = refl

select_ab : select toy_hash (content (file_a 7)) (content (file_ab 8)) ≡ ok selected_ab
unfolding select choose slot_result serial_newer
select_ab = rw (decode_a, decode_ab) (rw decode_ab refl)

key_a : host_key toy_hash host_a ≡ ok (replicate 16 1)
unfolding host_key host_bytes lower_ascii
key_a = refl

key_bb : host_key toy_hash host_bb ≡ ok (replicate 16 2)
unfolding host_key host_bytes lower_ascii
key_bb = refl

save-lookup_other_example : lookup toy_hash selected_ab host_a ≡ lookup toy_hash selected_a host_a
save-lookup_other_example =
    save-lookup_other toy_hash (content (file_a 7)) absent host_bb host_a (sample 0) 1 (file_ab 8)
      (replicate 16 2) (replicate 16 1) selected_a selected_ab tt tt save_bb key_bb key_a
      (λ e. ground arith) select_a select_ab

save-torn_example :
    (sel' : Selection) × (select toy_hash
        (write_slot 1 (take 143 (file_ab 8)) (content (file_a 7)) absent).0
        (write_slot 1 (take 143 (file_ab 8)) (content (file_a 7)) absent).1
      ≡ ok sel')
    × Kept toy_hash selected_a sel'
save-torn_example =
    save-torn toy_hash (content (file_a 7)) absent host_bb (sample 0) 1 (take 143 (file_ab 8)) 136
      [] selected_a tt tt select_a refl save_bb

save_returns_example :
    (file : List ℕ) × (save toy_hash (content (file_a 7)) absent host_bb (sample 0) ≡ ok (1, file))
save_returns_example =
    save_returns toy_hash (content (file_a 7)) absent host_bb (sample 0) selected_a (replicate 16 2)
      (sample 1 ∷ []) tt tt file_a_bytes tt select_a refl refl key_bb (sample-IsPackable 2)
      (inr (omega arith))

-- 32 records of `host_a`'s key
abbrev full_records : List Record
full_records = replicate 32 (sample 1)

abbrev repeated : ℕ → List ℕ → List ℕ
repeated zero bs = []
repeated (suc n) bs = bs ++ repeated n bs

abbrev full_file : List ℕ
full_file =
    0x43 ∷ 0x36 ∷ 0x54 ∷ 0x53 ∷ 1 ∷ 7 ∷ 0 ∷ 32 ∷ (repeated 32 (sample_bytes 1) ++ replicate 8 8)

decode_full : decode toy_hash full_file ≡ ok (7, full_records)
unfolding decode decode_cut checksum index unpack_u16 unpack_all unpack list_eq
decode_full = refl

select_full : select toy_hash (content full_file) absent ≡ ok (valid 0 (7, full_records) (0, 1))
unfolding select choose slot_result
select_full = rw decode_full refl
