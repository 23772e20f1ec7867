-- ===== src/Runs/Certs.antt =====
-- Concrete certificates for tools/package/listener/gen_certs.py.
use c64_https.Common.{ℕ, ◌+◌, ◌≡◌, refl, List, [], ◌∷◌, ◌++◌, length, slice, replicate, ok, arith}
use c64_https.GenCerts.{
  tlv, single, der_len, tlv_at, read_tlv, san_value, seq, all_of, name_entries, octetstring,
  find_from, san_oid, san_dns_names,
}
use c64_https.HardwareChecks.Leak.{starts_with}
use c64_https.GenCerts.Values.{read_tlv-tlv}
use c64_https.GenCerts.Names.{san_dns_names-san_value}

read_tlv-tlv_example :
    (bytes : List ℕ) × (start : ℕ) × (tlv 0x30 (replicate 300 7) ≡ ok bytes)
    × (read_tlv ((5 ∷ 6 ∷ []) ++ (bytes ++ (8 ∷ []))) 2 ≡ ok (tlv_at 0x30 start 300))
    × (slice start (start + 300) ((5 ∷ 6 ∷ []) ++ (bytes ++ (8 ∷ []))) ≡ replicate 300 7)
    × (start + 300 ≡ 2 + length bytes)
read_tlv-tlv_example =
    read_tlv-tlv (5 ∷ 6 ∷ []) (8 ∷ []) 0x30 (replicate 300 7) (omega arith) (omega arith)

-- The names "ab" and "c", and the extension's value that has them.
abbrev names : List (List ℕ)
names = (b'a' ∷ b'b' ∷ []) ∷ (b'c' ∷ []) ∷ []

abbrev octets : List ℕ
octets = 0x04 ∷ 9 ∷ 0x30 ∷ 7 ∷ 0x82 ∷ 2 ∷ b'a' ∷ b'b' ∷ 0x82 ∷ 1 ∷ b'c' ∷ []

san_dns_names-san_value_example :
    san_dns_names ((1 ∷ 2 ∷ []) ++ (san_oid ++ (octets ++ (9 ∷ 9 ∷ [])))) ≡ names
unfolding san_value seq all_of name_entries octetstring tlv single der_len find_from starts_with
san_dns_names-san_value_example =
    san_dns_names-san_value (1 ∷ 2 ∷ []) (9 ∷ 9 ∷ []) octets names (refl, (refl, tt)) (omega arith)
      refl refl
