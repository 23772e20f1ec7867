-- ===== src/HardwareChecks/Records.antt =====
-- tools/ip65_hw_checks.py: `parse_tls_records`, the records of one direction of a connection.
pub mod Framing
use c64_https.Common.{
  ℕ, zero, suc, ◌+◌, ◌-◌, ◌/◌, Bool, true, false, not, ◌&&◌, ◌||◌, List, [], ◌∷◌, ltb, leb, ◌==◌,
  if◌then◌else◌, length, drop, slice,
}
use c64_https.HardwareChecks.Capture.{be_at, byte_at}

abbrev pub tls_content_ccs : ℕ
tls_content_ccs = 0x14

abbrev pub tls_content_alert : ℕ
tls_content_alert = 0x15

abbrev pub tls_content_handshake : ℕ
tls_content_handshake = 0x16

abbrev pub tls_content_appdata : ℕ
tls_content_appdata = 0x17

pub record TlsRecord : Type 0 where
  pub content_type : ℕ
  pub version : ℕ
  -- length
  pub len : ℕ
  pub body : List ℕ
  pub offset : ℕ

-- ctype in (…)
abbrev pub is_content : ℕ → Bool
is_content c =
    c == tls_content_ccs
    || (c == tls_content_alert || (c == tls_content_handshake || c == tls_content_appdata))

-- The five bytes of a header can be those of a record.
unfoldable pub is_header : List ℕ → Bool
is_header bytes =
    is_content (byte_at 0 bytes)
    && (be_at 1 2 bytes / 256 == 0x03 && leb (be_at 3 2 bytes) (0x4000 + 256))

abbrev pub record_at : ℕ → List ℕ → TlsRecord
record_at off bytes = record {
  content_type = byte_at 0 bytes;
  version = be_at 1 2 bytes;
  len = be_at 3 2 bytes;
  body = slice 5 (5 + be_at 3 2 bytes) bytes;
  offset = off;
}

-- The loop, on the bytes from `off` on.
unfoldable pub tls_records_from : ℕ → ℕ → List ℕ → List TlsRecord
tls_records_from zero off bytes = []
tls_records_from (suc fuel) off bytes =
    let size = 5 + be_at 3 2 bytes in
    let more = tls_records_from fuel (off + size) (drop size bytes) in
    if ltb (length bytes) 5
    then []
    else if not (is_header bytes)
    then []
    else if ltb (length bytes) size
    then record_at off bytes ∷ []
    else record_at off bytes ∷ more

-- A round takes five bytes at least.
unfoldable pub parse_tls_records : List ℕ → List TlsRecord
parse_tls_records stream = tls_records_from (length stream) 0 stream
