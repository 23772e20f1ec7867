-- ===== src/HardwareChecks/Machine/Addresses.antt =====
-- tools/ip65_hw_checks.py: that `check_dhcp_lease`, which compares addresses by their text, tells them apart.
use c64_https.Common.{
  ℕ, ◌+◌, ◌-◌, ◌*◌, ◌/◌, ◌<◌, true, false, Option, some, List, [], ◌∷◌, ◌++◌, map, ltb, ◌==◌,
  length, list_eq→eq, All, ◌≡◌, ◌≢◌, refl, sym, ap, ◌∙◌, if_both, Bool-cases, inl, inr, arith,
}
use mathlib.Core.Path.{ap₂}
use mathlib.Core.List.{head-eq_of_cons-eq, tail-eq_of_cons-eq}
use c64_https.HardwareChecks.Machine.{
  str, digit, fmt_ip, split_dots, check_dhcp_lease, check_lease_place,
}

-- The number that digits denote.
value_from : ℕ → List ℕ → ℕ
value_from acc [] = acc
value_from acc (c ∷ cs) = value_from (acc * 10 + (c - b'0')) cs

abbrev pub IsOctet : ℕ → Type 0
IsOctet o = o < 256

value_from-str : (o : ℕ) → o < 1000 → value_from 0 (str o) ≡ o
unfolding str value_from
value_from-str o h = elim (Bool-cases (ltb o 10)) [
  | inl e ↦ rw (e) (ground arith)
  | inr e ↦ elim (Bool-cases (ltb o 100)) [
    | inl d ↦ rw (e, d) (ground arith)
    | inr d ↦ rw (e, d) (ground arith)
  ]
]

digit-no_dot : (n : ℕ) → digit n ≢ b'.'
digit-no_dot n e = absurd (omega (arith, e))

str-no_dot : (o : ℕ) → All (λ c. c ≢ b'.') (str o)
unfolding str
str-no_dot o =
    if_both (All λ c. c ≢ b'.') (ltb o 10) (digit o ∷ []) _ (digit-no_dot o, tt)
      (if_both (All λ c. c ≢ b'.') (ltb o 100) (digit (o / 10) ∷ digit o ∷ []) _
        (digit-no_dot (o / 10), (digit-no_dot o, tt))
        (digit-no_dot (o / 100), (digit-no_dot (o / 10), (digit-no_dot o, tt))))

split_dots-no_dot :
    (xs rest : List ℕ)
    → All (λ c. c ≢ b'.') xs
    → split_dots (xs ++ (b'.' ∷ rest)) ≡ xs ∷ split_dots rest
unfolding split_dots
split_dots-no_dot [] rest h = refl
split_dots-no_dot (x ∷ xs) rest h =
    let other : (x == b'.') ≡ false = ground (arith, h.0) in
    rw (other, split_dots-no_dot xs rest h.1) refl

split_dots-last : (xs : List ℕ) → All (λ c. c ≢ b'.') xs → split_dots xs ≡ xs ∷ []
unfolding split_dots
split_dots-last [] h = refl
split_dots-last (x ∷ xs) h =
    let other : (x == b'.') ≡ false = ground (arith, h.0) in rw (other, split_dots-last xs h.1) refl

-- The text of an address splits at its dots into the texts of its octets.
split_dots-fmt_ip : (o : ℕ) (os : List ℕ) → split_dots (fmt_ip (o ∷ os)) ≡ map str (o ∷ os)
unfolding fmt_ip
split_dots-fmt_ip o [] = split_dots-last (str o) (str-no_dot o)
split_dots-fmt_ip o (p ∷ ps) =
    split_dots-no_dot (str o) (fmt_ip (p ∷ ps)) (str-no_dot o)
    ∙ ap (λ t. str o ∷ t) (split_dots-fmt_ip p ps)

map-str_injective :
    (os ps : List ℕ) → All IsOctet os → All IsOctet ps → map str os ≡ map str ps → os ≡ ps
map-str_injective [] [] u v h = refl
map-str_injective [] (p ∷ ps) u v h = cc
map-str_injective (o ∷ os) [] u v h = cc
map-str_injective (o ∷ os) (p ∷ ps) u v h =
    let e : str o ≡ str p = head-eq_of_cons-eq h in
    ap₂ (λ x xs. x ∷ xs)
      (sym (value_from-str o (omega arith)) ∙ ap (value_from 0) e ∙ value_from-str p (omega arith))
      (map-str_injective os ps u.1 v.1 (tail-eq_of_cons-eq h))

fmt_ip_injective :
    (o : ℕ) (os : List ℕ) (p : ℕ) (ps : List ℕ)
    → All IsOctet (o ∷ os)
    → All IsOctet (p ∷ ps)
    → fmt_ip (o ∷ os) ≡ fmt_ip (p ∷ ps)
    → ◌≡◌ {A = List ℕ} (o ∷ os) (p ∷ ps)
fmt_ip_injective o os p ps u v h =
    map-str_injective (o ∷ os) (p ∷ ps) u v
      (sym (split_dots-fmt_ip o os) ∙ ap split_dots h ∙ split_dots-fmt_ip p ps)

passed-text :
    (octets : List ℕ) (subnet host_ip : Option (List ℕ)) (pinned : List ℕ)
    → (check_dhcp_lease (some octets) subnet host_ip (some pinned)).passed ≡ true
    → (length octets ≡ 4) × (fmt_ip octets ≡ pinned)
unfolding check_dhcp_lease check_lease_place
passed-text octets subnet host_ip pinned h =
    (ground (arith, h), list_eq→eq (fmt_ip octets) pinned (ground (arith, h)))

-- A lease passes as the pinned one only when its octets are those of the pinned address.
pub check_dhcp_lease-pinned :
    (octets want : List ℕ) (subnet host_ip : Option (List ℕ))
    → All IsOctet octets
    → All IsOctet want
    → length want ≡ 4
    → (check_dhcp_lease (some octets) subnet host_ip (some (fmt_ip want))).passed ≡ true
    → octets ≡ want
check_dhcp_lease-pinned [] want subnet host_ip u v l h =
    absurd (omega (arith, (passed-text [] subnet host_ip (fmt_ip want) h).0))
check_dhcp_lease-pinned (o ∷ os) [] subnet host_ip u v l h = absurd (omega (arith, l))
check_dhcp_lease-pinned (o ∷ os) (p ∷ ps) subnet host_ip u v l h =
    fmt_ip_injective o os p ps u v (passed-text (o ∷ os) subnet host_ip (fmt_ip (p ∷ ps)) h).1
