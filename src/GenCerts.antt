-- ===== src/GenCerts.antt =====
-- tools/package/listener/gen_certs.py: the DER encoder of the certificate generator, and the walk that reads
-- the host names of a certificate back. The key, the serial number, the dates and the signature are given,
-- as the bytes or numbers that the generator has of them.
pub mod Lengths
pub mod Values
pub mod Names
use Prim.Native.Nat.{bit_and, bit_or}
use c64_https.Common.{
  ℕ, zero, suc, ◌+◌, ◌*◌, ◌/◌, ◌%◌, Bool, true, false, ◌||◌, Option, none, some, List, [], ◌∷◌,
  ◌++◌, length, slice, ltb, ◌==◌, if◌then◌else◌, Result, ok, raised, ◌>>=◌, unicode_error,
  value_error,
}
use c64_https.Common.Bytes.{index, to_bytes_be, from_be}
use c64_https.TrustStore.{is_ascii}
use c64_https.HardwareChecks.Leak.{starts_with}

-- n.bit_length(), with a round for each bit
unfoldable pub bits_from : ℕ → ℕ → ℕ
bits_from zero n = 0
bits_from (suc fuel) n =
    let rest = bits_from fuel (n / 2) in elim (n == 0) [ true ↦ 0 | false ↦ suc rest ]

abbrev pub bit_length : ℕ → ℕ
bit_length n = bits_from n n

-- bytes([n])
unfoldable pub single : ℕ → Result (List ℕ)
single n = if ltb n 256 then ok (n ∷ []) else raised value_error

unfoldable pub der_len : ℕ → Result (List ℕ)
der_len n = elim (ltb n 0x80) [
  | true ↦ ok (n ∷ [])
  | false ↦ do
    body ← to_bytes_be ((bit_length n + 7) / 8) n
    first ← single (bit_or 0x80 (length body))
    ok (first ++ body)
]

unfoldable pub tlv : ℕ → List ℕ → Result (List ℕ)
tlv tag body = do t ← single tag; len ← der_len (length body); ok (t ++ (len ++ body))

-- b"".join(items), of items that may raise
unfoldable pub all_of : List (Result (List ℕ)) → Result (List ℕ)
all_of [] = ok []
all_of (item ∷ items) = do bytes ← item; others ← all_of items; ok (bytes ++ others)

unfoldable pub seq : List (Result (List ℕ)) → Result (List ℕ)
seq items = all_of items >>= tlv 0x30

unfoldable pub octetstring : List ℕ → Result (List ℕ)
octetstring bytes = tlv 0x04 bytes

-- The GeneralNames: an entry of the tag 0x82 for each host name.
unfoldable pub name_entries : List (List ℕ) → List (Result (List ℕ))
name_entries [] = []
name_entries (h ∷ hs) = (if is_ascii h then tlv 0x82 h else raised unicode_error) ∷ name_entries hs

unfoldable pub san_value : List (List ℕ) → Result (List ℕ)
san_value sans = seq (name_entries sans)

-- What the reader's `tlv` returns: the tag, where the value begins, its length, and where it ends.
pub record Tlv : Type 0 where
  pub tag : ℕ
  pub start : ℕ
  pub len : ℕ
  pub next : ℕ

abbrev pub tlv_at : ℕ → ℕ → ℕ → Tlv
tlv_at tag start len = record { tag = tag; start = start; len = len; next = start + len }

unfoldable pub read_tlv : List ℕ → ℕ → Result Tlv
read_tlv buf off = do
  tag ← index buf off
  n ← index buf (off + 1)
  ok (
      if bit_and n 0x80 == 0
      then tlv_at tag (off + 2) n
      else (let k = bit_and n 0x7F in
          tlv_at tag (off + 2 + k) (from_be (slice (off + 2) (off + 2 + k) buf))))

-- der[s:s + ln].decode("ascii"), for an entry of the tag 0x82
abbrev pub add_name : List ℕ → Tlv → Result (List (List ℕ)) → Result (List (List ℕ))
add_name der t rest =
    if t.tag == 0x82
    then (let name = slice t.start (t.start + t.len) der in
        if is_ascii name then (rest >>= λ names. ok (name ∷ names)) else raised unicode_error)
    else rest

-- The loop over the entries. A round goes on by two bytes at least.
unfoldable pub names_in : ℕ → List ℕ → ℕ → ℕ → Result (List (List ℕ))
names_in zero der cur end = ok []
names_in (suc fuel) der cur end = elim (ltb cur end) [
  | true ↦ (read_tlv der cur >>= λ t. add_name der t (names_in fuel der t.next end))
  | false ↦ ok []
]

-- b"\x06\x03\x55\x1d\x11"
abbrev pub san_oid : List ℕ
san_oid = 0x06 ∷ 0x03 ∷ 0x55 ∷ 0x1d ∷ 0x11 ∷ []

-- der.find(needle), from the place `i` on
unfoldable pub find_from : List ℕ → ℕ → List ℕ → Option ℕ
find_from needle i [] = if starts_with needle [] then some i else none
find_from needle i (b ∷ bs) =
    let rest = find_from needle (i + 1) bs in if starts_with needle (b ∷ bs) then some i else rest

-- The walk from the OID's place on.
unfoldable pub walk : List ℕ → ℕ → Result (List (List ℕ))
walk der i = do
  t ← read_tlv der (i + 5)
  octets ← (if t.tag == 0x01 then read_tlv der t.next else ok t)
  names ← read_tlv der octets.start
  names_in (length der) der names.start (names.start + names.len)

-- The rest of the function, of the certificate's bytes; an exception gives no names.
abbrev pub or_no_names : Result (List (List ℕ)) → List (List ℕ)
or_no_names (raised fault) = []
or_no_names (ok names) = names

unfoldable pub san_dns_names : List ℕ → List (List ℕ)
san_dns_names der = elim (find_from san_oid 0 der) [ none ↦ [] | some i ↦ or_no_names (walk der i) ]
