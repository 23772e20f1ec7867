-- ===== src/HardwareChecks/Wire.antt =====
-- tools/ip65_hw_checks.py: the checks on the frames of a capture, from `split_by_source` to
-- `check_tls_traffic_both_ways`. A time is a number of nanoseconds. The text of a host name is the list of
-- its code points, and `lower` is that of ASCII, in which host names are written.
pub mod Stations
use c64_https.Common.{
  ℕ, zero, suc, ◌+◌, Bool, true, false, not, ◌&&◌, ◌||◌, Option, none, some, List, [], ◌∷◌, ◌++◌,
  map, ltb, leb, ◌==◌, if◌then◌else◌, length, replicate, list_eq, get_or, filter, any, is_nil,
}
use Prim.Native.Nat.{bit_and}
use mathlib.Core.List.{reverse}
use c64_https.BodyChecks.Verdicts.{
  Verdict, WireReason, on_wire, passing, failing, same_macs, unexpected_macs, few_on_port,
  port_seen, few_frames, station_seen, mac_unread, mac_width, mac_zero, mac_group, mac_default,
  mac_of_host, few_with_mac, mac_seen, not_sampled, shrank, not_grown, grown, inverted_window,
  empty_capture, none_inside, few_inside, bracketed, queried, not_queried, no_payload, no_records,
  not_handshake, not_hello, other_sni, hello_sent, none_from_client, none_from_host, both_ways,
}
use c64_https.HardwareChecks.Capture.{Frame, is_proto, ipproto_tcp, ipproto_udp}
use c64_https.HardwareChecks.Streams.{tcp_stream, port_eq}
use c64_https.HardwareChecks.Records.{
  TlsRecord, parse_tls_records, tls_content_handshake, tls_content_appdata,
}
use c64_https.HardwareChecks.Names.{client_hello_sni, dns_question_names, tls_hs_client_hello}

abbrev pub ip65_default_cfg_mac : List ℕ
ip65_default_cfg_mac = 0x00 ∷ 0x80 ∷ 0x10 ∷ 0x00 ∷ 0x51 ∷ 0x00 ∷ []

abbrev pub pass_on : WireReason → Verdict
pass_on r = passing (on_wire r)

abbrev pub fail_on : WireReason → Verdict
fail_on r = failing (on_wire r)

pub record SourceSplit : Type 0 where
  -- c64
  pub client : List Frame
  pub host : List Frame
  pub other : List Frame

-- (s.c64 if src == c64_mac else s.host if src == host_mac else s.other).append(f)
abbrev pub sorted_in : Frame → List ℕ → List ℕ → SourceSplit → SourceSplit
sorted_in f client_mac host_mac s =
    if list_eq f.eth_src client_mac
    then record s { client = f ∷ s.client }
    else if list_eq f.eth_src host_mac
    then record s { host = f ∷ s.host }
    else record s { other = f ∷ s.other }

unfoldable pub split_by_source : List Frame → List ℕ → List ℕ → SourceSplit
split_by_source [] client_mac host_mac = record { client = []; host = []; other = [] }
split_by_source (f ∷ fs) client_mac host_mac =
    sorted_in f client_mac host_mac (split_by_source fs client_mac host_mac)

-- f.ip_proto == IPPROTO_TCP and (f.dport == tcp_port or f.sport == tcp_port)
abbrev pub on_tcp_port : ℕ → Frame → Bool
on_tcp_port port f =
    is_proto ipproto_tcp f && (port_eq f.dport (some port) || port_eq f.sport (some port))

unfoldable pub check_c64_originated : List Frame → List ℕ → List ℕ → ℕ → Option ℕ → Verdict
check_c64_originated frames client_mac host_mac min_frames tcp_port =
    let s = split_by_source frames client_mac host_mac in
    if list_eq client_mac host_mac
    then fail_on same_macs
    else if not (is_nil s.other)
    then fail_on unexpected_macs
    else elim tcp_port [
      | some port ↦
          if ltb (length (filter (on_tcp_port port) s.client)) min_frames
          then fail_on few_on_port
          else pass_on port_seen
      | none ↦ if ltb (length s.client) min_frames then fail_on few_frames else pass_on station_seen
    ]

-- bytes(f.eth_src) == mac
abbrev pub is_from : List ℕ → Frame → Bool
is_from mac f = list_eq f.eth_src mac

unfoldable pub check_mac_on_wire : List Frame → Option (List ℕ) → List ℕ → ℕ → Verdict
check_mac_on_wire frames none host_mac min_frames = fail_on mac_unread
check_mac_on_wire frames (some mac) host_mac min_frames =
    if not (length mac == 6)
    then fail_on mac_width
    else if list_eq mac (replicate 6 0)
    then fail_on mac_zero
    else if not (bit_and (get_or mac 0 0) 0x01 == 0)
    then fail_on mac_group
    else if list_eq mac ip65_default_cfg_mac
    then fail_on mac_default
    else if list_eq mac host_mac
    then fail_on mac_of_host
    else if ltb (length (filter (is_from mac) frames)) min_frames
    then fail_on few_with_mac
    else pass_on mac_seen

unfoldable pub check_capture_grew : Option ℕ → Option ℕ → Verdict
check_capture_grew (some before) (some after) =
    if ltb after before
    then fail_on shrank
    else if after == before
    then fail_on not_grown
    else pass_on grown
check_capture_grew _ _ = fail_on not_sampled

-- started_at - slack_s <= f.ts <= ended_at + slack_s
abbrev pub in_window : ℕ → ℕ → ℕ → Frame → Bool
in_window started_at ended_at slack f = leb started_at (f.ts + slack) && leb f.ts (ended_at + slack)

unfoldable pub check_capture_bracket : List Frame → ℕ → ℕ → ℕ → ℕ → Verdict
check_capture_bracket frames started_at ended_at min_inside slack =
    let inside = filter (in_window started_at ended_at slack) frames in
    if ltb ended_at started_at
    then fail_on inverted_window
    else if is_nil frames
    then fail_on empty_capture
    else if is_nil inside
    then fail_on none_inside
    else if ltb (length inside) min_inside
    then fail_on few_inside
    else pass_on bracketed

unfoldable pub frames_in_window : List Frame → ℕ → ℕ → ℕ → List Frame
frames_in_window frames started_at ended_at slack =
    filter (in_window started_at ended_at slack) frames

-- name.lower()
unfoldable pub lower : List ℕ → List ℕ
lower name = map (λ c. if leb b'A' c && leb c b'Z' then c + 0x20 else c) name

-- The text without the "." that it begins with.
unfoldable pub lstrip_dots : List ℕ → List ℕ
lstrip_dots [] = []
lstrip_dots (c ∷ cs) = let rest = lstrip_dots cs in if c == b'.' then rest else c ∷ cs

-- name.lower().rstrip(".")
abbrev pub canonical_name : List ℕ → List ℕ
canonical_name name = reverse (lstrip_dots (reverse (lower name)))

-- The frames whose questions count.
abbrev pub is_query_from : List ℕ → Frame → Bool
is_query_from mac f = is_proto ipproto_udp f && (port_eq f.dport (some 53) && is_from mac f)

abbrev pub asks_for : List ℕ → List ℕ → Frame → Bool
asks_for mac want f =
    is_query_from mac f
    && any (λ name. list_eq (canonical_name name) want) (dns_question_names f.udp_payload)

unfoldable pub check_dns_query_on_wire : List Frame → List ℕ → List ℕ → Verdict
check_dns_query_on_wire frames mac hostname =
    if any (asks_for mac (canonical_name hostname)) frames
    then pass_on queried
    else fail_on not_queried

-- not first.body or first.body[0] != TLS_HS_CLIENT_HELLO
abbrev pub is_client_hello : List ℕ → Bool
is_client_hello body = not (is_nil body) && (get_or body 0 0 == tls_hs_client_hello)

-- (sni or "").lower() != expect_sni.lower()
abbrev pub sni_differs : Option (List ℕ) → Option (List ℕ) → Bool
sni_differs sni none = false
sni_differs none (some want) = not (list_eq [] (lower want))
sni_differs (some sni) (some want) = not (list_eq (lower sni) (lower want))

unfoldable pub check_client_hello_on_wire : List Frame → List ℕ → ℕ → Option (List ℕ) → Verdict
check_client_hello_on_wire frames mac port expect_sni =
    let stream = tcp_stream frames (some mac) (some port) none in
    if is_nil stream then fail_on no_payload else elim (parse_tls_records stream) [
      | [] ↦ fail_on no_records
      | first ∷ rest ↦
          if not (first.content_type == tls_content_handshake)
          then fail_on not_handshake
          else if not (is_client_hello first.body)
          then fail_on not_hello
          else if sni_differs (client_hello_sni first.body) expect_sni
          then fail_on other_sni
          else pass_on hello_sent
    ]

abbrev pub is_appdata : TlsRecord → Bool
is_appdata r = r.content_type == tls_content_appdata

unfoldable pub check_tls_traffic_both_ways : List Frame → List ℕ → List ℕ → ℕ → Verdict
check_tls_traffic_both_ways frames client_mac host_mac port =
    let client_recs = parse_tls_records (tcp_stream frames (some client_mac) (some port) none) in
    let host_recs = parse_tls_records (tcp_stream frames (some host_mac) none (some port)) in
    if is_nil (filter is_appdata client_recs)
    then fail_on none_from_client
    else if is_nil (filter is_appdata host_recs)
    then fail_on none_from_host
    else pass_on both_ways
