-- ===== src/TrustBundle.antt =====
-- tools/trust_bundle.py: a signed bundle of pins, its records, its bytes, and the checks on them.
-- `Regex` has the matcher for host names, `Signing` the signature scheme.
pub mod Signing
pub mod Sorting
pub mod Format
pub mod Signed
pub mod Verified
pub mod Canonical
pub mod Regex
use c64_https.Common.{
  ℕ, zero, suc, ◌+◌, ◌-◌, ◌*◌, ◌^◌, Bool, true, false, not, ◌&&◌, ◌||◌, Option, none, some, List,
  [], ◌∷◌, ◌++◌, map, ltb, leb, ◌==◌, if◌then◌else◌, length, take, drop, slice, list_eq, Result, ok,
  raised, ◌>>=◌, ◌>>◌, guard, bundle_error, unicode_error, assertion_error, BundleCheck,
  host_not_ascii, host_length, host_charset, record_mode, record_flags, record_uses,
  generation_range, record_count, duplicate_host, too_short, bad_magic, bad_version, bad_count,
  bad_length, not_ascending, signature_range, signature_invalid, below_floor,
}
use c64_https.Common.Bytes.{index, le_bytes, from_le, from_be, to_bytes_be}
use c64_https.TrustStore.{
  Record, Host, bytes, of_record, is_ascii, lower_ascii, host_key, pack_all, unpack_all,
}
use c64_https.TrustStore.Hashlib.{Hash}
use Signing.{Ecdsa}
use Regex.{Re, char_class, eps, seq, alt, star, fullmatch}

-- b"C6TB"
abbrev pub magic : List ℕ
magic = 0x43 ∷ 0x36 ∷ 0x54 ∷ 0x42 ∷ []

abbrev pub version : ℕ
version = 1

abbrev pub header_len : ℕ
header_len = 8

abbrev pub record_len : ℕ
record_len = 64

abbrev pub sig_len : ℕ
sig_len = 64

abbrev pub max_records : ℕ
max_records = 32

abbrev pub display_len : ℕ
display_len = 12

abbrev pub max_host_len : ℕ
max_host_len = 63

abbrev pub mode_bundle_leaf : ℕ
mode_bundle_leaf = 0x10

abbrev pub flag_warn_only : ℕ
flag_warn_only = 1

abbrev pub p256_n : ℕ
p256_n = 0xFFFFFFFF00000000FFFFFFFFFFFFFFFFBCE6FAADA7179E84F3B9CAC2FC632551

-- [a-z0-9] and [a-z0-9-]
abbrev pub is_alnum : ℕ → Bool
is_alnum c = (leb b'a' c && leb c b'z') || (leb b'0' c && leb c b'9')

abbrev pub is_label_char : ℕ → Bool
is_label_char c = is_alnum c || c == b'-'

-- _HOST_LABEL: [a-z0-9]([a-z0-9-]*[a-z0-9])?
abbrev pub host_label : Re
host_label =
    seq (char_class is_alnum)
      (alt (seq (star (char_class is_label_char)) (char_class is_alnum)) eps)

-- _HOST_RE: a label, then any number of labels behind a dot
abbrev pub host_re : Re
host_re = seq host_label (star (seq (char_class (λ c. c == b'.')) host_label))

-- The host is a Python `str`, by its code points.
unfoldable pub canonical_host : List ℕ → Result (List ℕ)
unfolding fullmatch
canonical_host host = do
  guard (is_ascii host) (bundle_error host_not_ascii)
  guard (leb 1 (length host) && leb (length host) max_host_len) (bundle_error host_length)
  let canon = lower_ascii host
  guard (fullmatch host_re canon) (bundle_error host_charset)
  ok canon

unfoldable pub check_record : Record → Result (Unit {0})
check_record rec = do
  guard (rec.mode == mode_bundle_leaf) (bundle_error record_mode)
  guard (rec.flags == flag_warn_only) (bundle_error record_flags)
  guard (rec.uses == 0) (bundle_error record_uses)

pub record Bundle : Type 0 where
  pub generation : ℕ
  pub records : List Record
  pub r : ℕ
  pub s : ℕ
  pub signed : List ℕ

unfoldable pub pack_header : ℕ → ℕ → Result (List ℕ)
pack_header generation n = do
  guard (leb generation 0xFFFF) (bundle_error generation_range)
  guard (leb n max_records) (bundle_error record_count)
  ok (magic ++ ((version ∷ []) ++ (le_bytes 2 generation ++ (n ∷ []))))

-- `<` on Python's bytes
unfoldable pub bytes_lt : List ℕ → List ℕ → Bool
bytes_lt [] [] = false
bytes_lt [] (y ∷ ys) = true
bytes_lt (x ∷ xs) [] = false
bytes_lt (x ∷ xs) (y ∷ ys) = ltb x y || (x == y && bytes_lt xs ys)

-- sorted(records, key=lambda r: r.key), which keeps records of one key in order
unfoldable pub insert : Record → List Record → List Record
insert r [] = r ∷ []
insert r (x ∷ xs) = if bytes_lt x.key r.key then x ∷ insert r xs else r ∷ x ∷ xs

unfoldable pub sorted : List Record → List Record
sorted [] = []
sorted (r ∷ rs) = insert r (sorted rs)

unfoldable pub contains : List ℕ → List Record → Bool
contains key [] = false
contains key (r ∷ rs) = list_eq key r.key || contains key rs

-- len(set(keys)) == len(keys)
unfoldable pub all_distinct : List Record → Bool
all_distinct [] = true
all_distinct (r ∷ rs) = not (contains r.key rs) && all_distinct rs

unfoldable pub check_all : List Record → Result (Unit {0})
check_all [] = ok tt
check_all (r ∷ rs) = do check_record r; check_all rs

unfoldable pub unsigned_body : ℕ → List Record → Result (List ℕ)
unsigned_body generation records = do
  let recs = sorted records
  guard (all_distinct recs) (bundle_error duplicate_host)
  check_all recs
  header ← pack_header generation (length recs)
  rest ← pack_all (map of_record recs)
  ok (header ++ rest)

-- The loop of `parse` over the records, with the key of the record before, if there is one.
unfoldable pub check_ascending : Option (List ℕ) → List Record → Result (Unit {0})
check_ascending previous [] = ok tt
check_ascending none (r ∷ rs) = do check_record r; check_ascending (some r.key) rs
check_ascending (some key) (r ∷ rs) = do
  check_record r
  guard (bytes_lt key r.key) (bundle_error not_ascending)
  check_ascending (some r.key) rs

-- 1 <= x < P256_N
abbrev pub in_range : ℕ → Bool
in_range x = leb 1 x && ltb x p256_n

-- What `parse` returns for a blob of `n` records, once they are read.
abbrev pub bundle_of : List ℕ → ℕ → List Record → Bundle
bundle_of blob n records =
    let end = header_len + record_len * n in
    record {
      generation = from_le (slice 5 7 blob);
      records = records;
      r = from_be (slice end (end + 32) blob);
      s = from_be (slice (end + 32) (end + 64) blob);
      signed = take end blob;
    }

-- `parse` behind its check of the length
unfoldable pub parse_records : List ℕ → ℕ → Result Bundle
parse_records blob n = do
  records ← unpack_all 0 n blob
  check_ascending none records
  let b = bundle_of blob n records
  guard (in_range b.r && in_range b.s) (bundle_error signature_range)
  ok b

unfoldable pub parse : List ℕ → Result Bundle
parse blob = do
  guard (leb (header_len + sig_len) (length blob)) (bundle_error too_short)
  guard (list_eq (take 4 blob) magic) (bundle_error bad_magic)
  v ← index blob 4
  guard (v == version) (bundle_error bad_version)
  n ← index blob 7
  guard (leb n max_records) (bundle_error bad_count)
  guard (length blob == header_len + record_len * n + sig_len) (bundle_error bad_length)
  parse_records blob n

module _ (sha : Hash) where
  unfoldable pub leaf_record : List ℕ → List ℕ → Result Record
  leaf_record host spki = do
    canon ← canonical_host host
    key ← host_key sha (bytes canon)
    ok (record {
      key = key;
      spki = spki;
      mode = mode_bundle_leaf;
      flags = flag_warn_only;
      uses = 0;
      display = take display_len canon;
    })

  -- blob[-SIG_LEN:] and blob[:-SIG_LEN]
  unfoldable pub c64_verify_struct : List ℕ → List ℕ → Result (List ℕ)
  c64_verify_struct blob pub_xy = do
    guard (length pub_xy == 64) assertion_error
    let trailer = drop (length blob - sig_len) blob
    ok (trailer ++ (sha.digest (take (length blob - sig_len) blob) ++ pub_xy))

module _ {Private Public : Type 0} (ec : Ecdsa Private Public) where
  unfoldable pub sign : Private → ℕ → List Record → Result (List ℕ)
  sign key generation records = do
    body ← unsigned_body generation records
    let sig = ec.sign key body
    r ← to_bytes_be 32 sig.0
    s ← to_bytes_be 32 sig.1
    ok (body ++ (r ++ s))

  unfoldable pub verify : List ℕ → Public → ℕ → Result Bundle
  verify blob public floor = do
    b ← parse blob
    guard (ec.verify public (b.r, b.s) b.signed) (bundle_error signature_invalid)
    guard (leb floor b.generation) (bundle_error below_floor)
    ok b
