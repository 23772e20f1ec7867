-- ===== src/HardwareChecks/Machine.antt =====
-- tools/ip65_hw_checks.py: `check_dhcp_lease`, `read_ip65_config` and `check_ip65_config_written`.
-- The transport `read_memory` is a parameter. A text is the list of its code points.
pub mod Addresses
pub mod Config
use c64_https.Common.{
  ℕ, zero, suc, ◌+◌, ◌-◌, ◌*◌, ◌/◌, ◌%◌, Bool, true, false, not, ◌&&◌, ◌||◌, Option, none, some,
  List, [], ◌∷◌, ◌++◌, map, ltb, leb, ◌==◌, if◌then◌else◌, length, take, drop, slice, replicate,
  list_eq, get_or, filter, any, is_nil,
}
use c64_https.Common.Bytes.{from_le}
use c64_https.BodyChecks.Verdicts.{
  Verdict, MachineReason, on_machine, passing, failing, unsure, ip_unread, ip_width, ip_zero,
  ip_default, ip_loopback, ip_reserved, ip_link_local, ip_of_host, ip_off_subnet, ip_not_pinned,
  leased, fields_unread, fields_default, fields_zero, fields_wrong, fields_written, shadow_unread,
  shadow_short, shadow_rom, shadow_ram, latch_unread, latch_odd, latch_connected,
  latch_contradicted, latch_error, latch_clear, no_expected, response_unread, other_status,
  other_length, other_body, exact_body, error_unread, no_error, known_error, unknown_error,
  counters_unread, never_sent, other_sends, overflowed, counted, image_unread, image_length,
  image_differs, image_same, no_symbols, symbols_missing, symbols_found,
}
use c64_https.HardwareChecks.Wire.{ip65_default_cfg_mac}
use c64_https.HardwareChecks.Leak.{is_in, starts_with}

abbrev pub ip65_default_cfg_ip : List ℕ
ip65_default_cfg_ip = 192 ∷ 168 ∷ 1 ∷ 64 ∷ []

abbrev pub ip65_default_cfg_netmask : List ℕ
ip65_default_cfg_netmask = 255 ∷ 255 ∷ 255 ∷ 0 ∷ []

abbrev pub ip65_default_cfg_gateway : List ℕ
ip65_default_cfg_gateway = 192 ∷ 168 ∷ 1 ∷ 1 ∷ []

abbrev pub pass_at : MachineReason → Verdict
pass_at r = passing (on_machine r)

abbrev pub fail_at : MachineReason → Verdict
fail_at r = failing (on_machine r)

abbrev pub digit : ℕ → ℕ
digit n = n % 10 + b'0'

-- str(o), for an octet
unfoldable pub str : ℕ → List ℕ
str o =
    if ltb o 10
    then digit o ∷ []
    else if ltb o 100
    then digit (o / 10) ∷ digit o ∷ []
    else digit (o / 100) ∷ digit (o / 10) ∷ digit o ∷ []

unfoldable pub fmt_ip : List ℕ → List ℕ
fmt_ip [] = []
fmt_ip (o ∷ []) = str o
fmt_ip (o ∷ p ∷ ps) = str o ++ (b'.' ∷ fmt_ip (p ∷ ps))

abbrev pub push_on : ℕ → List (List ℕ) → List (List ℕ)
push_on c [] = (c ∷ []) ∷ []
push_on c (part ∷ parts) = (c ∷ part) ∷ parts

-- text.split(".")
unfoldable pub split_dots : List ℕ → List (List ℕ)
split_dots [] = [] ∷ []
split_dots (c ∷ cs) = let rest = split_dots cs in if c == b'.' then [] ∷ rest else push_on c rest

unfoldable pub lists_eq : List (List ℕ) → List (List ℕ) → Bool
lists_eq [] [] = true
lists_eq (x ∷ xs) (y ∷ ys) = list_eq x y && lists_eq xs ys
lists_eq _ _ = false

-- [str(o) for o in octets[:3]] == subnet.split(".")[:3]
abbrev pub on_subnet : List ℕ → List ℕ → Bool
on_subnet subnet octets = lists_eq (map str (take 3 octets)) (take 3 (split_dots subnet))

-- A test of what is not asserted where it is None.
abbrev pub asserted : Option (List ℕ) → (List ℕ → Bool) → Bool
asserted none test = true
asserted (some want) test = test want

-- What the lease is compared to once it is four octets that a lease can be.
unfoldable pub check_lease_place :
    List ℕ → Option (List ℕ) → Option (List ℕ) → Option (List ℕ) → Verdict
check_lease_place octets subnet host_ip expect_ip =
    if not (asserted host_ip λ host. not (list_eq (fmt_ip octets) host))
    then fail_at ip_of_host
    else if not (asserted subnet λ net. on_subnet net octets)
    then fail_at ip_off_subnet
    else if not (asserted expect_ip λ pinned. list_eq (fmt_ip octets) pinned)
    then fail_at ip_not_pinned
    else pass_at leased

unfoldable pub check_dhcp_lease :
    Option (List ℕ) → Option (List ℕ) → Option (List ℕ) → Option (List ℕ) → Verdict
check_dhcp_lease none subnet host_ip expect_ip = fail_at ip_unread
check_dhcp_lease (some octets) subnet host_ip expect_ip =
    if not (length octets == 4)
    then fail_at ip_width
    else if list_eq octets (replicate 4 0)
    then fail_at ip_zero
    else if list_eq octets ip65_default_cfg_ip
    then fail_at ip_default
    else if get_or octets 0 0 == 127
    then fail_at ip_loopback
    else if leb 224 (get_or octets 0 0)
    then fail_at ip_reserved
    else if get_or octets 0 0 == 169 && get_or octets 1 0 == 254
    then fail_at ip_link_local
    else check_lease_place octets subnet host_ip expect_ip

-- IP65_VT_ADDR
abbrev pub ip65_vt_addr : ℕ
ip65_vt_addr = 0x2000 + 33

-- The two ends of IP65_VT_TARGET_RANGE
abbrev pub ip65_vt_target_lo : ℕ
ip65_vt_target_lo = 0x2000

abbrev pub ip65_vt_target_hi : ℕ
ip65_vt_target_hi = 0x4F8C

-- A field as it is read: its bytes, and its pointer in the table.
pub record ConfigField : Type 0 where
  pub bytes : Option (List ℕ)
  pub pointer : Option ℕ

-- Keep what was read where it has the width that was asked for.
abbrev pub of_width : ℕ → List ℕ → Option (List ℕ)
of_width size got = if length got == size then some got else none

-- The body of the loop over IP65_VT_FIELDS.
unfoldable pub read_field : (ℕ → ℕ → List ℕ) → List ℕ → ℕ → ℕ → ConfigField
read_field read_memory table off size =
    let ptr = from_le (slice off (off + 2) table) in
    if ltb (length table) (off + 2)
    then record { bytes = none; pointer = none }
    else if not (leb ip65_vt_target_lo ptr && leb (ptr + size) ip65_vt_target_hi)
    then record { bytes = none; pointer = some ptr }
    else record { bytes = of_width size (read_memory ptr size); pointer = some ptr }

pub record Ip65Config : Type 0 where
  pub cfg_mac : ConfigField
  pub cfg_ip : ConfigField
  pub cfg_netmask : ConfigField
  pub cfg_gateway : ConfigField

unfoldable pub read_ip65_config : (ℕ → ℕ → List ℕ) → Ip65Config
read_ip65_config read_memory =
    let table = read_memory ip65_vt_addr 8 in
    record {
      cfg_mac = read_field read_memory table 0 6;
      cfg_ip = read_field read_memory table 2 4;
      cfg_netmask = read_field read_memory table 4 4;
      cfg_gateway = read_field read_memory table 6 4;
    }

abbrev pub is_unread : ℕ → Option (List ℕ) → Bool
is_unread size none = true
is_unread size (some got) = not (length got == size)

abbrev pub holds : Option (List ℕ) → List ℕ → Bool
holds none want = false
holds (some got) want = list_eq got want

-- not any(got)
abbrev pub all_zero : Option (List ℕ) → Bool
all_zero none = true
all_zero (some got) = not (any (λ b. not (b == 0)) got)

-- The field is not what it is asserted to be.
abbrev pub is_wrong : Option (List ℕ) → Option (List ℕ) → Bool
is_wrong got want = not (asserted want (holds got))

unfoldable pub check_ip65_config_written :
    (cfg_ip cfg_netmask cfg_gateway cfg_mac expect_ip expect_gateway expect_mac : Option (List ℕ))
    → Verdict
check_ip65_config_written cfg_ip cfg_netmask cfg_gateway cfg_mac expect_ip expect_gateway
      expect_mac =
    if is_unread 4 cfg_ip
      || (is_unread 4 cfg_netmask || (is_unread 4 cfg_gateway || is_unread 6 cfg_mac))
    then fail_at fields_unread
    else if holds cfg_ip ip65_default_cfg_ip
        || (holds cfg_gateway ip65_default_cfg_gateway || holds cfg_mac ip65_default_cfg_mac)
    then fail_at fields_default
    else if all_zero cfg_ip || all_zero cfg_mac
    then fail_at fields_zero
    else if is_wrong cfg_ip expect_ip
        || (is_wrong cfg_gateway expect_gateway || is_wrong cfg_mac expect_mac)
    then fail_at fields_wrong
    else pass_at fields_written
