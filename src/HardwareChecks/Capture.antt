-- ===== src/HardwareChecks/Capture.antt =====
-- tools/ip65_hw_checks.py: `parse_pcap`, and the decoding of a frame down to its ports and payload. Every
-- read of bytes stands behind the check of a length that makes it one in range. A time is a number of
-- nanoseconds, for a float.
pub mod Written
pub mod Padding
use c64_https.Common.{
  ℕ, zero, suc, ◌+◌, ◌-◌, ◌*◌, ◌/◌, ◌%◌, Bool, true, false, not, ◌&&◌, ◌||◌, Option, none, some,
  List, [], ◌∷◌, ◌++◌, ltb, leb, ◌==◌, if◌then◌else◌, length, take, drop, slice, get_or, list_eq,
  Result, ok, raised, ◌>>=◌, pcap_error, no_header, unknown_magic, link_type, oversized, clipped,
  min,
}
use c64_https.Common.Bytes.{from_le, from_be}

abbrev pub ethertype_ipv4 : ℕ
ethertype_ipv4 = 0x0800

abbrev pub ethertype_arp : ℕ
ethertype_arp = 0x0806

abbrev pub ipproto_tcp : ℕ
ipproto_tcp = 6

abbrev pub ipproto_udp : ℕ
ipproto_udp = 17

pub record Frame : Type 0 where
  pub index : ℕ
  pub ts : ℕ
  pub eth_src : List ℕ
  pub eth_dst : List ℕ
  pub ethertype : ℕ
  pub raw : List ℕ
  pub ip_src : Option (List ℕ)
  pub ip_dst : Option (List ℕ)
  pub ip_proto : Option ℕ
  pub ip_payload : List ℕ
  pub sport : Option ℕ
  pub dport : Option ℕ
  pub udp_payload : List ℕ
  pub tcp_seq : Option ℕ
  pub tcp_flags : Option ℕ
  pub tcp_payload : List ℕ
  pub arp_op : Option ℕ
  pub arp_sender_mac : Option (List ℕ)
  pub arp_sender_ip : Option (List ℕ)
  pub arp_target_ip : Option (List ℕ)

-- Frame(index=…, ts=…, eth_src=…, eth_dst=…, ethertype=…, raw=…)
abbrev pub new_frame : ℕ → ℕ → List ℕ → List ℕ → ℕ → List ℕ → Frame
new_frame index ts src dst etype raw = record {
  index = index;
  ts = ts;
  eth_src = src;
  eth_dst = dst;
  ethertype = etype;
  raw = raw;
  ip_src = none;
  ip_dst = none;
  ip_proto = none;
  ip_payload = [];
  sport = none;
  dport = none;
  udp_payload = [];
  tcp_seq = none;
  tcp_flags = none;
  tcp_payload = [];
  arp_op = none;
  arp_sender_mac = none;
  arp_sender_ip = none;
  arp_target_ip = none;
}

-- struct.unpack(">H", xs[at:at + 2]) and the like, for `w` bytes
abbrev pub be_at : ℕ → ℕ → List ℕ → ℕ
be_at at w xs = from_be (slice at (at + w) xs)

abbrev pub byte_at : ℕ → List ℕ → ℕ
byte_at at xs = get_or xs at 0

unfoldable pub decode_arp : Frame → Frame
decode_arp f =
    let body = drop 14 f.raw in
    if ltb (length body) 28
    then f
    else if not (
        be_at 0 2 body == 1
        && be_at 2 2 body == ethertype_ipv4
        && byte_at 4 body == 6
        && byte_at 5 body == 4)
    then f
    else record f {
      arp_op = some (be_at 6 2 body);
      arp_sender_mac = some (slice 8 14 body);
      arp_sender_ip = some (slice 14 18 body);
      arp_target_ip = some (slice 24 28 body);
    }

-- The branch of `_decode_frame` for UDP, on the payload of the datagram.
unfoldable pub decode_udp : Frame → Frame
decode_udp f = record f {
  sport = some (be_at 0 2 f.ip_payload);
  dport = some (be_at 2 2 f.ip_payload);
  udp_payload = slice 8 (8 + (be_at 4 2 f.ip_payload - 8)) f.ip_payload;
}

-- The branch for TCP.
unfoldable pub decode_tcp : Frame → Frame
decode_tcp f =
    let doff = byte_at 12 f.ip_payload / 16 * 4 in
    record f {
      sport = some (be_at 0 2 f.ip_payload);
      dport = some (be_at 2 2 f.ip_payload);
      tcp_seq = some (be_at 4 4 f.ip_payload);
      tcp_flags = some (byte_at 13 f.ip_payload);
      tcp_payload =
          if leb 20 doff && leb doff (length f.ip_payload) then drop doff f.ip_payload else [];
    }

-- if 20 <= total <= len(body): body = body[:total]
abbrev pub unpadded : List ℕ → List ℕ
unpadded body =
    let total = be_at 2 2 body in
    if leb 20 total && leb total (length body) then take total body else body

abbrev pub is_proto : ℕ → Frame → Bool
is_proto n f = elim f.ip_proto [ none ↦ false | some p ↦ p == n ]

abbrev pub decode_transport : Frame → Frame
decode_transport f =
    if is_proto ipproto_udp f && leb 8 (length f.ip_payload)
    then decode_udp f
    else if is_proto ipproto_tcp f && leb 20 (length f.ip_payload)
    then decode_tcp f
    else f

-- The branch for IPv4, on the bytes behind the Ethernet header.
unfoldable pub decode_ipv4 : Frame → List ℕ → Frame
decode_ipv4 f body =
    let ihl = byte_at 0 body % 16 * 4 in
    if ltb ihl 20 || ltb (length body) ihl
    then f
    else decode_transport (record f {
      ip_proto = some (byte_at 9 (unpadded body));
      ip_src = some (slice 12 16 (unpadded body));
      ip_dst = some (slice 16 20 (unpadded body));
      ip_payload = drop ihl (unpadded body);
    })

-- What stands behind an 802.1Q tag, of which one is unwrapped: the ethertype and the bytes.
abbrev pub untagged : ℕ → List ℕ → ℕ × List ℕ
untagged etype body =
    if etype == 0x8100 && leb 4 (length body) then (be_at 2 2 body, drop 4 body) else (etype, body)

abbrev pub decode_body : Frame → List ℕ → Frame
decode_body f body =
    if f.ethertype == ethertype_arp
    then decode_arp f
    else if not (f.ethertype == ethertype_ipv4) || ltb (length body) 20
    then f
    else decode_ipv4 f body

unfoldable pub decode_frame : ℕ → ℕ → List ℕ → Option Frame
decode_frame index ts raw =
    if ltb (length raw) 14
    then none
    else (let u : ℕ × List ℕ = untagged (be_at 12 2 raw) (drop 14 raw) in
        some (decode_body (new_frame index ts (slice 6 12 raw) (take 6 raw) u.0 raw) u.1))

-- The byte order of a capture, and what its times count in a second.
pub record Format : Type 0 where
  pub big : Bool
  pub ts_div : ℕ

-- _PCAP_MAGICS
unfoldable pub format_of : List ℕ → Option Format
format_of magic =
    if list_eq magic (0xd4 ∷ 0xc3 ∷ 0xb2 ∷ 0xa1 ∷ [])
    then some (record { big = false; ts_div = 1_000_000 })
    else if list_eq magic (0x4d ∷ 0x3c ∷ 0xb2 ∷ 0xa1 ∷ [])
    then some (record { big = false; ts_div = 1_000_000_000 })
    else if list_eq magic (0xa1 ∷ 0xb2 ∷ 0xc3 ∷ 0xd4 ∷ [])
    then some (record { big = true; ts_div = 1_000_000 })
    else if list_eq magic (0xa1 ∷ 0xb2 ∷ 0x3c ∷ 0x4d ∷ [])
    then some (record { big = true; ts_div = 1_000_000_000 })
    else none

-- struct.unpack(endian + "I", xs[at:at + 4])
unfoldable pub word_at : Format → ℕ → List ℕ → ℕ
word_at fmt at xs =
    if fmt.big then from_be (slice at (at + 4) xs) else from_le (slice at (at + 4) xs)

-- sec + frac / ts_div, in nanoseconds
abbrev pub stamp : Format → ℕ → ℕ → ℕ
stamp fmt sec frac = sec * 1_000_000_000 + frac * (1_000_000_000 / fmt.ts_div)

-- if f is not None: frames.append(f)
abbrev pub kept : Option Frame → List Frame → List Frame
kept none fs = fs
kept (some f) fs = f ∷ fs

-- The loop over the records, on the bytes from `off` on.
unfoldable pub records_from : ℕ → Format → Bool → ℕ → List ℕ → Result (List Frame)
records_from zero fmt strict idx bytes = ok []
records_from (suc fuel) fmt strict idx bytes =
    let incl = word_at fmt 8 bytes in
    let more = records_from fuel fmt strict (idx + 1) (drop (16 + incl) bytes) in
    if ltb (length bytes) 16
    then ok []
    else if ltb 262144 incl
    then raised (pcap_error oversized)
    else if ltb (length bytes) (16 + incl)
    then ok []
    else if ltb incl (word_at fmt 12 bytes) && strict
    then raised (pcap_error clipped)
    else (do
      fs ← more
      ok (
          kept
            (decode_frame idx (stamp fmt (word_at fmt 0 bytes) (word_at fmt 4 bytes))
              (slice 16 (16 + incl) bytes))
            fs))

-- A round of the loop takes 16 bytes at least, so that as many rounds as there are bytes are enough.
unfoldable pub parse_pcap : List ℕ → Bool → Result (List Frame)
parse_pcap bytes strict =
    if ltb (length bytes) 24
    then raised (pcap_error no_header)
    else elim (format_of (take 4 bytes)) [
      | none ↦ raised (pcap_error unknown_magic)
      | some fmt ↦
          if not (word_at fmt 20 bytes == 1) && strict
          then raised (pcap_error link_type)
          else records_from (length bytes) fmt strict 0 (drop 24 bytes)
    ]
