-- ===== src/HardwareChecks/Capture/Written.antt =====
-- tools/ip65_hw_checks.py: `parse_pcap` reads back the frames of a capture, also of one that is being
-- written.
use c64_https.Common.{ℕ, ◌+◌, ◌^◌, ◌≤◌, ◌<◌, List, [], ◌∷◌, ◌++◌, if◌then◌else◌, length, ◌⊎◌}
use mathlib.Core.List.{reverse}
use c64_https.Common.Bytes.{le_bytes}
use c64_https.HardwareChecks.Capture.{Frame, Format, word_at, stamp, kept, decode_frame}

-- The four bytes of a number, in the order of the capture.
unfoldable pub word_bytes : Format → ℕ → List ℕ
word_bytes fmt n = if fmt.big then reverse (le_bytes 4 n) else le_bytes 4 n

-- A packet as tcpdump writes it.
pub record Packet : Type 0 where
  pub sec : ℕ
  pub frac : ℕ
  pub bytes : List ℕ

abbrev pub packet_bytes : Format → Packet → List ℕ
packet_bytes fmt p =
    word_bytes fmt p.sec
    ++ (word_bytes fmt p.frac
        ++ (word_bytes fmt (length p.bytes) ++ (word_bytes fmt (length p.bytes) ++ p.bytes)))

unfoldable pub packets_bytes : Format → List Packet → List ℕ
packets_bytes fmt [] = []
packets_bytes fmt (p ∷ ps) = packet_bytes fmt p ++ packets_bytes fmt ps

abbrev pub IsPacket : Packet → Type 0
IsPacket p = (p.sec < 256 ^ 4) × (p.frac < 256 ^ 4) × (length p.bytes ≤ 262144)

-- The frames of packets, numbered from `idx` on, without those too short for one.
unfoldable pub frames_from : Format → ℕ → List Packet → List Frame
frames_from fmt idx [] = []
frames_from fmt idx (p ∷ ps) =
    kept (decode_frame idx (stamp fmt p.sec p.frac) p.bytes) (frames_from fmt (idx + 1) ps)

-- A record that has not been written to its end.
abbrev pub IsTorn : Format → List ℕ → Type 0
IsTorn fmt tail =
    (length tail < 16) ⊎ ((word_at fmt 8 tail ≤ 262144) × (length tail < 16 + word_at fmt 8 tail))

module _ (fmt : Format) (p : Packet) (rest : List ℕ) (valid : IsPacket p) where
  abbrev n : ℕ
  n = length p.bytes

  abbrev fields4 : List ℕ
  fields4 = p.bytes ++ rest

  abbrev fields3 : List ℕ
  fields3 = word_bytes fmt n ++ fields4

  abbrev fields2 : List ℕ
  fields2 = word_bytes fmt n ++ fields3

  abbrev fields1 : List ℕ
  fields1 = word_bytes fmt p.frac ++ fields2

  abbrev flat : List ℕ
  flat = word_bytes fmt p.sec ++ fields1
