-- ===== src/TrustStore/Serial.antt =====
-- tools/trust_store.py: `serial_newer`, the order of generations on a circle of 65,536.
use c64_https.Common.{ℕ, ◌+◌, ◌%◌, ◌≡◌, ◌↔◌, ◌⊎◌, true, false, none, some, arith}
use c64_https.TrustStore.Slots.{serial_newer, serial_distance}

-- At most one of two generations is newer, whichever is asked first.
pub serial_newer_swap :
    (a b : ℕ)
    → (serial_newer a b ≡ some true ↔ serial_newer b a ≡ some false)
      × (serial_newer a b ≡ none ↔ serial_newer b a ≡ none)
unfolding serial_newer
serial_newer_swap a b =
    let d : (serial_distance a b ≡ 0) × (serial_distance b a ≡ 0)
        ⊎ (serial_distance a b + serial_distance b a ≡ 65536) =
      omega arith in
    (ground arith, ground arith)

-- The generation that a save writes is newer than the one it read, also where it wraps.
pub serial_newer-next : (g : ℕ) → serial_newer g ((g + 1) % 65536) ≡ some true
unfolding serial_newer
serial_newer-next g = let d : serial_distance g ((g + 1) % 65536) ≡ 1 = omega arith in rw d
