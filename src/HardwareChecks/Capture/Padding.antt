-- ===== src/HardwareChecks/Capture/Padding.antt =====
-- tools/ip65_hw_checks.py: what an Ethernet frame has behind its packet is not read.
use c64_https.Common.{
  ℕ, ◌*◌, ◌%◌, ◌≤◌, ◌<◌, true, false, ◌&&◌, List, [], ◌∷◌, ◌++◌, ltb, leb, length, length-append,
  take_all, take-append_length, ◌≡◌, refl, ◌∙◌, arith,
}
use c64_https.HardwareChecks.Capture.{Frame, be_at, byte_at, unpadded, decode_ipv4}
use c64_https.HardwareChecks.Positions.{be_at-append}

byte_at-append : (xs ys : List ℕ) → 0 < length xs → byte_at 0 (xs ++ ys) ≡ byte_at 0 xs
byte_at-append [] ys h = absurd (omega arith)
byte_at-append (x ∷ xs) ys h = refl

module _ (packet pad : List ℕ) (whole : be_at 2 2 packet ≡ length packet)
    (long : 20 ≤ length packet) where
  unpadded_lem : unpadded (packet ++ pad) ≡ packet
  unpadded_lem =
      let total : be_at 2 2 (packet ++ pad) ≡ length packet =
        be_at-append 2 2 packet pad (omega arith) ∙ whole in
      let inside : (leb 20 (length packet) && leb (length packet) (length (packet ++ pad))) ≡ true =
        ground (arith, length-append packet pad) in
      rw (total, inside) (take-append_length (length packet) packet pad refl)

  unpadded-packet : unpadded packet ≡ packet
  unpadded-packet =
      let inside : (leb 20 (length packet) && leb (length packet) (length packet)) ≡ true =
        ground arith in
      rw (whole, inside) (take_all (length packet) packet (omega arith))

  first_byte : byte_at 0 (packet ++ pad) ≡ byte_at 0 packet
  first_byte = byte_at-append packet pad (omega arith)

-- Of a datagram of IPv4 that is as long as it says, and whose header fits in it, the decoder makes the same
-- with any padding behind it as without.
pub decode_ipv4-padding :
    (f : Frame) (packet pad : List ℕ)
    → be_at 2 2 packet ≡ length packet
    → 20 ≤ length packet
    → byte_at 0 packet % 16 * 4 ≤ length packet
    → decode_ipv4 f (packet ++ pad) ≡ decode_ipv4 f packet
unfolding decode_ipv4
decode_ipv4-padding f packet pad whole long fits =
    let short : ltb (length (packet ++ pad)) (byte_at 0 packet % 16 * 4) ≡ false =
      ground (arith, length-append packet pad) in
    let short' : ltb (length packet) (byte_at 0 packet % 16 * 4) ≡ false = ground arith in
    rw
      (
        first_byte packet pad whole long,
        unpadded_lem packet pad whole long,
        unpadded-packet packet pad whole long,
        short,
        short',
      )
      refl
