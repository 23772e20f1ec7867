-- ===== src/HardwareChecks/Streams.antt =====
-- tools/ip65_hw_checks.py: `tcp_streams`, which assembles the payload of each connection by sequence
-- number. A dict is a list of its entries, in the order in which they came in.
pub mod Assembly
use c64_https.Common.{
  ℕ, ◌+◌, ◌-◌, Bool, true, false, not, ◌&&◌, ◌||◌, Option, none, some, List, [], ◌∷◌, ◌++◌, map,
  ltb, ◌==◌, if◌then◌else◌, length, take, drop, replicate, list_eq, is_nil,
}
use c64_https.HardwareChecks.Capture.{Frame, ipproto_tcp, is_proto}

-- The four values that tell a connection from others, with b"" for an address that is None.
pub record Key : Type 0 where
  pub src : List ℕ
  pub sport : Option ℕ
  pub dst : List ℕ
  pub dport : Option ℕ

abbrev pub port_eq : Option ℕ → Option ℕ → Bool
port_eq none none = true
port_eq (some a) (some b) = a == b
port_eq _ _ = false

unfoldable pub key_eq : Key → Key → Bool
key_eq a b =
    list_eq a.src b.src
    && (port_eq a.sport b.sport && (list_eq a.dst b.dst && port_eq a.dport b.dport))

-- x or b""
abbrev pub or_empty : Option (List ℕ) → List ℕ
or_empty none = []
or_empty (some a) = a

abbrev pub key_of : Frame → Key
key_of f = record {
  src = or_empty f.ip_src;
  sport = f.sport;
  dst = or_empty f.ip_dst;
  dport = f.dport;
}

-- The payloads of a connection by their sequence numbers.
abbrev pub Pieces : Type 0
Pieces = List (ℕ × List ℕ)

-- Keep a payload unless the one at its number is at least as long.
unfoldable pub put_piece : ℕ → List ℕ → Pieces → Pieces
put_piece seq payload [] = (seq, payload) ∷ []
put_piece seq payload ((s, p) ∷ ps) =
    if s == seq
    then (if ltb (length p) (length payload) then (seq, payload) ∷ ps else (s, p) ∷ ps)
    else (s, p) ∷ put_piece seq payload ps

unfoldable pub put_segment : Key → ℕ → List ℕ → List (Key × Pieces) → List (Key × Pieces)
put_segment key seq payload [] = (key, put_piece seq payload []) ∷ []
put_segment key seq payload ((k, ps) ∷ conns) =
    if key_eq k key
    then (k, put_piece seq payload ps) ∷ conns
    else (k, ps) ∷ put_segment key seq payload conns

-- A filter that is None lets everything pass.
abbrev pub mac_passes : Option (List ℕ) → List ℕ → Bool
mac_passes none mac = true
mac_passes (some want) mac = list_eq mac want

abbrev pub port_passes : Option ℕ → Option ℕ → Bool
port_passes none port = true
port_passes (some want) port = port_eq port (some want)

-- The sequence number of a frame that the loop does not pass over.
unfoldable pub segment_of : Option (List ℕ) → Option ℕ → Option ℕ → Frame → Option ℕ
segment_of eth_src dport sport f =
    if not (is_proto ipproto_tcp f) || is_nil f.tcp_payload
    then none
    else if mac_passes eth_src f.eth_src && (port_passes dport f.dport && port_passes sport f.sport)
    then f.tcp_seq
    else none

unfoldable pub connections :
    Option (List ℕ) → Option ℕ → Option ℕ → List Frame → List (Key × Pieces) → List (Key × Pieces)
connections eth_src dport sport [] conns = conns
connections eth_src dport sport (f ∷ fs) conns =
    connections eth_src dport sport fs (elim (segment_of eth_src dport sport f) [
      | none ↦ conns
      | some seq ↦ put_segment (key_of f) seq f.tcp_payload conns
    ])

-- sorted(pieces)
unfoldable pub insert_piece : ℕ × List ℕ → Pieces → Pieces
insert_piece p [] = p ∷ []
insert_piece p (q ∷ ps) = if ltb q.0 p.0 then q ∷ insert_piece p ps else p ∷ q ∷ ps

unfoldable pub sorted_pieces : Pieces → Pieces
sorted_pieces [] = []
sorted_pieces (p ∷ ps) = insert_piece p (sorted_pieces ps)

-- buf.extend(…) up to `off`, and then buf[off:off + len(payload)] = payload
unfoldable pub written : ℕ → List ℕ → List ℕ → List ℕ
written off payload buf =
    let filled = buf ++ replicate (off - length buf) 0 in
    take off filled ++ (payload ++ drop (off + length payload) filled)

unfoldable pub write_all : ℕ → Pieces → List ℕ → List ℕ
write_all base [] buf = buf
write_all base ((seq, payload) ∷ ps) buf = write_all base ps (written (seq - base) payload buf)

-- The first of the sorted pieces has the least number.
abbrev pub base_of : Pieces → ℕ
base_of [] = 0
base_of (p ∷ ps) = p.0

unfoldable pub assembled : Pieces → List ℕ
assembled pieces = let ps = sorted_pieces pieces in write_all (base_of ps) ps []

abbrev pub pieces_of : Key × Pieces → Pieces
pieces_of c = c.1

unfoldable pub tcp_streams : List Frame → Option (List ℕ) → Option ℕ → Option ℕ → List (List ℕ)
tcp_streams frames eth_src dport sport =
    map (λ c. assembled (pieces_of c)) (connections eth_src dport sport frames [])

-- max(streams, key=len): the first of the longest
unfoldable pub longest : List ℕ → List (List ℕ) → List ℕ
longest best [] = best
longest best (s ∷ ss) = longest (if ltb (length best) (length s) then s else best) ss

unfoldable pub tcp_stream : List Frame → Option (List ℕ) → Option ℕ → Option ℕ → List ℕ
tcp_stream frames eth_src dport sport = elim (tcp_streams frames eth_src dport sport) [
  | [] ↦ []
  | s ∷ ss ↦ longest s ss
]
