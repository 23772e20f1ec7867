-- ===== src/HardwareChecks/Machine/Config.antt =====
-- tools/ip65_hw_checks.py: which memory `read_ip65_config` reads.
use c64_https.Common.{
  ℕ, ◌+◌, ◌≤◌, ◌&&◌, List, leb, leb→le, slice, ◌≡◌, refl, inl, inr, Bool-cases, and_true, arith,
}
use c64_https.Common.Bytes.{from_le}
use c64_https.HardwareChecks.Machine.{
  ConfigField, read_field, read_ip65_config, ip65_vt_addr, ip65_vt_target_lo, ip65_vt_target_hi,
}

module _ (mem mem' : ℕ → ℕ → List ℕ)
    (agree : (a n : ℕ)
      → ip65_vt_target_lo ≤ a
      → a + n ≤ ip65_vt_target_hi
      → mem a n ≡ mem' a n) where
  read_field-agree :
      (table : List ℕ) (off size : ℕ)
      → read_field mem table off size ≡ read_field mem' table off size
  unfolding read_field
  read_field-agree table off size =
      let ptr : ℕ = from_le (slice off (off + 2) table) in
      elim (Bool-cases (leb ip65_vt_target_lo ptr && leb (ptr + size) ip65_vt_target_hi)) [
        | inl e ↦
            let h = and_true (leb ip65_vt_target_lo ptr) (leb (ptr + size) ip65_vt_target_hi) e in
            rw
              (
                e,
                agree ptr size (leb→le ip65_vt_target_lo ptr h.0)
                    (leb→le (ptr + size) ip65_vt_target_hi h.1),
              )
              refl
        | inr e ↦ rw (e) refl
      ]

  -- Two memories that are the same in the range of the blob give the same configuration: nothing else is read.
  pub read_ip65_config-agree : read_ip65_config mem ≡ read_ip65_config mem'
  unfolding read_ip65_config
  read_ip65_config-agree =
      let table : mem ip65_vt_addr 8 ≡ mem' ip65_vt_addr 8 =
        agree ip65_vt_addr 8 (omega arith) (omega arith) in
      let same : Path (List ℕ → ℕ → ℕ → ConfigField) (read_field mem) (read_field mem') =
        λ i t off size. read_field-agree t off size i in
      rw (table, same) refl
