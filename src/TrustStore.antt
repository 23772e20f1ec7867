-- ===== src/TrustStore.antt =====
-- tools/trust_store.py: the host-side mirror of the client's TOFU trust store. Here: the constants, the
-- host key and the checksum, the record codec and the file codec. `Slots` has the selection between
-- the two slot files and `save`.
pub mod Hashlib
pub mod Slots
pub mod Codec
pub mod Files
pub mod RoundTrip
pub mod Accepted
pub mod Refusals
pub mod Serial
use c64_https.Common.{
  ℕ, zero, suc, ◌+◌, ◌-◌, ◌*◌, ◌%◌, ◌≤◌, ◌<◌, ◌≡◌, Bool, true, false, ◌&&◌, Option, none, some,
  List, [], ◌∷◌, ◌++◌, map, ltb, leb, ◌==◌, if◌then◌else◌, length, take, drop, slice, replicate,
  list_eq, Result, ok, raised, ◌>>=◌, ◌>>◌, guard, store_error, value_error, struct_error,
  unicode_error,
}
use c64_https.Common.Bytes.{index, pack_u16, unpack_u16}
use Prim.Native.Nat.{bit_or}
use Hashlib.{Hash}

-- b"C6TS"
abbrev pub magic : List ℕ
magic = 0x43 ∷ 0x36 ∷ 0x54 ∷ 0x53 ∷ []

abbrev pub version : ℕ
version = 1

abbrev pub hdr_size : ℕ
hdr_size = 8

abbrev pub rec_size : ℕ
rec_size = 64

abbrev pub sum_size : ℕ
sum_size = 8

abbrev pub key_size : ℕ
key_size = 16

abbrev pub max_recs : ℕ
max_recs = 32

abbrev pub file_max : ℕ
file_max = hdr_size + max_recs * rec_size + sum_size

abbrev pub mode_tofu : ℕ
mode_tofu = 1

abbrev pub slot_ok : ℕ
slot_ok = 0

abbrev pub slot_absent : ℕ
slot_absent = 1

abbrev pub r_format : ℕ
r_format = 5

abbrev pub r_version : ℕ
r_version = 6

abbrev pub r_checksum : ℕ
r_checksum = 7

abbrev pub r_tie : ℕ
r_tie = 8

abbrev pub r_notready : ℕ
r_notready = 10

abbrev pub r_full : ℕ
r_full = 12

abbrev pub is_upper : ℕ → Bool
is_upper b = leb 0x41 b && leb b 0x5A

abbrev pub lower_byte : ℕ → ℕ
lower_byte b = if is_upper b then bit_or b 0x20 else b

unfoldable pub lower_ascii : List ℕ → List ℕ
lower_ascii host = map lower_byte host

-- A host is a Python `str`, by its code points, or `bytes`.
pub data Host : Type 0 where
  text : List ℕ → Host
  bytes : List ℕ → Host

abbrev pub is_ascii : List ℕ → Bool
is_ascii [] = true
is_ascii (c ∷ cs) = ltb c 128 && is_ascii cs

-- host.encode("ascii") where the host is a `str`
unfoldable pub host_bytes : Host → Result (List ℕ)
host_bytes (text cs) = if is_ascii cs then ok cs else raised unicode_error
host_bytes (bytes bs) = ok bs

pub record Record : Type 0 where
  pub key : List ℕ
  pub spki : List ℕ
  pub mode : ℕ
  pub flags : ℕ
  pub uses : ℕ
  pub display : List ℕ

-- struct.pack("<BBH", mode, flags, uses)
abbrev pub pack_bbh : ℕ → ℕ → ℕ → Result (List ℕ)
pack_bbh mode flags uses = do
  guard (ltb mode 256) struct_error
  guard (ltb flags 256) struct_error
  u ← pack_u16 uses
  ok (mode ∷ flags ∷ u)

-- struct.unpack_from("<BBH", raw, off), given raw[off:]
abbrev pub unpack_bbh : List ℕ → Result (ℕ × ℕ × ℕ)
unpack_bbh (a ∷ b ∷ c ∷ d ∷ rest) = ok (a, b, c + 256 * d)
unpack_bbh _ = raised struct_error

-- self.display[:12].ljust(12, b"\x00")
unfoldable pub padded : List ℕ → List ℕ
padded display = let disp = take 12 display in disp ++ replicate (12 - length disp) 0

unfoldable pub pack : Record → Result (List ℕ)
pack r = do
  guard (length r.key == key_size && length r.spki == 32) value_error
  middle ← pack_bbh r.mode r.flags r.uses
  ok (r.key ++ (r.spki ++ (middle ++ padded r.display)))

unfoldable pub unpack : List ℕ → Result Record
unpack raw = do
  (mode, flags, uses) ← unpack_bbh (drop 48 raw)
  ok (record {
    key = take 16 raw;
    spki = slice 16 48 raw;
    mode = mode;
    flags = flags;
    uses = uses;
    display = slice 52 64 raw;
  })

-- `encode` takes records, or byte strings that stand for packed ones.
pub data Item : Type 0 where
  of_record : Record → Item
  of_bytes : List ℕ → Item

abbrev pub pack_item : Item → Result (List ℕ)
pack_item (of_record r) = pack r
pack_item (of_bytes bs) = ok bs

-- b"".join(…)
unfoldable pub pack_all : List Item → Result (List ℕ)
pack_all [] = ok []
pack_all (x ∷ xs) = do bs ← pack_item x; rest ← pack_all xs; ok (bs ++ rest)

-- [Record.unpack(data[HDR_SIZE + j * REC_SIZE : HDR_SIZE + (j + 1) * REC_SIZE])] for the `k` numbers
-- j from `i` on
unfoldable pub unpack_all : ℕ → ℕ → List ℕ → Result (List Record)
unpack_all i zero blob = ok []
unpack_all i (suc k) blob = do
  r ← unpack (slice (hdr_size + i * rec_size) (hdr_size + (i + 1) * rec_size) blob)
  rs ← unpack_all (i + 1) k blob
  ok (r ∷ rs)

module _ (sha : Hash) where
  unfoldable pub host_key : Host → Result (List ℕ)
  host_key host = do bs ← host_bytes host; ok (take key_size (sha.digest (lower_ascii bs)))

  unfoldable pub checksum : List ℕ → List ℕ
  checksum body = take sum_size (sha.digest body)

  -- Record.for_host with `display` left to its default
  unfoldable pub for_host : Host → List ℕ → ℕ → ℕ → ℕ → Result Record
  for_host host spki mode flags uses = do
    h ← host_bytes host
    key ← host_key host
    ok (record {
      key = key;
      spki = spki;
      mode = mode;
      flags = flags;
      uses = uses;
      display = take 12 h;
    })

  unfoldable pub encode : ℕ → List Item → Result (List ℕ)
  encode gen records = do
    guard (leb (length records) 255) value_error
    g ← pack_u16 (gen % 65536)
    recs ← pack_all records
    let body = magic ++ ((version ∷ []) ++ (g ++ ((length records ∷ []) ++ recs)))
    ok (body ++ checksum body)

  -- `decode` behind its first line, on the bytes that it keeps
  unfoldable pub decode_cut : List ℕ → Result (ℕ × List Record)
  decode_cut blob = do
    guard (leb (hdr_size + sum_size) (length blob)) (store_error r_format)
    guard (list_eq (take 4 blob) magic) (store_error r_format)
    v ← index blob 4
    guard (v == version) (store_error r_version)
    n ← index blob 7
    guard (length blob == hdr_size + n * rec_size + sum_size) (store_error r_format)
    let body = take (length blob - sum_size) blob
    guard (list_eq (checksum body) (drop (length blob - sum_size) blob)) (store_error r_checksum)
    gen ← unpack_u16 (drop 5 blob)
    recs ← unpack_all 0 n blob
    ok (gen, recs)

  unfoldable pub decode : List ℕ → Result (ℕ × List Record)
  decode input = decode_cut (take (file_max + 1) input)
