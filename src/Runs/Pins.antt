-- ===== src/Runs/Pins.antt =====
-- Runs of the signed bundle of pins on concrete records and a concrete blob.
use c64_https.Common.{
  ℕ, ◌≡◌, refl, true, List, [], ◌∷◌, ◌++◌, map, replicate, All, list_eq, ok, arith,
}
use c64_https.Common.Bytes.{IsByte, index, from_le, from_be, to_bytes_be}
use c64_https.Runs.{
  toy_hash, toy_ecdsa, leaf, leaf-IsPackable, leaf-IsLeaf, signed_bytes, blob, parsed,
  all_bytes-All,
}
use c64_https.TrustStore.{unpack_all, unpack}
use c64_https.TrustStore.Codec.{stored}
use c64_https.TrustBundle.{
  Bundle, bytes_lt, contains, all_distinct, sorted, unsigned_body, check_ascending, check_record,
  parse_records, parse, c64_verify_struct, sign, verify,
}
use c64_https.TrustBundle.Verified.{verify-sign}
use c64_https.TrustBundle.Canonical.{
  IsScalar, parse-written, unsigned_body-parse, c64_verify_struct-parse,
}

parse-blob : parse blob ≡ ok parsed
unfolding parse parse_records unpack_all unpack check_ascending check_record index from_le from_be
    list_eq bytes_lt
parse-blob = refl

blob_bytes : All IsByte blob
blob_bytes = all_bytes-All blob refl

two_leaves-distinct : all_distinct (leaf 2 ∷ leaf 1 ∷ []) ≡ true
unfolding all_distinct contains list_eq
two_leaves-distinct = refl

verify-sign_example :
    (made : List ℕ) × (b : Bundle) × (sign toy_ecdsa 5 3 (leaf 2 ∷ leaf 1 ∷ []) ≡ ok made)
    × (verify toy_ecdsa made 5 3 ≡ ok b)
    × (b.generation ≡ 3)
    × (b.records ≡ map stored (sorted (leaf 2 ∷ leaf 1 ∷ [])))
    × (unsigned_body 3 (leaf 2 ∷ leaf 1 ∷ []) ≡ ok b.signed)
verify-sign_example =
    verify-sign toy_ecdsa 5 3 3 (leaf 2 ∷ leaf 1 ∷ []) (leaf-IsPackable 2, (leaf-IsPackable 1, tt))
      (leaf-IsLeaf 2, (leaf-IsLeaf 1, tt)) two_leaves-distinct (omega arith) (omega arith)
      (omega arith)

parse-written_example :
    (body : List ℕ) × (rb : List ℕ) × (sb : List ℕ) × (unsigned_body 3 (leaf 1 ∷ []) ≡ ok body)
    × (sorted (leaf 1 ∷ []) ≡ leaf 1 ∷ [])
    × (to_bytes_be 32 1 ≡ ok rb)
    × (to_bytes_be 32 2 ≡ ok sb)
    × (blob ≡ body ++ (rb ++ sb))
    × IsScalar 1
    × IsScalar 2
parse-written_example = parse-written blob parsed blob_bytes parse-blob

unsigned_body-parse_example : unsigned_body 3 (leaf 1 ∷ []) ≡ ok signed_bytes
unsigned_body-parse_example = unsigned_body-parse blob parsed blob_bytes parse-blob

c64_verify_struct-parse_example :
    (rb : List ℕ) × (sb : List ℕ) × (to_bytes_be 32 1 ≡ ok rb)
    × (to_bytes_be 32 2 ≡ ok sb)
    × (c64_verify_struct toy_hash blob (replicate 64 7)
        ≡ ok ((rb ++ sb) ++ (replicate 32 72 ++ replicate 64 7)))
c64_verify_struct-parse_example =
    c64_verify_struct-parse toy_hash blob (replicate 64 7) parsed blob_bytes refl parse-blob
