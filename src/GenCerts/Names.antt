-- ===== src/GenCerts/Names.antt =====
-- tools/package/listener/gen_certs.py: `san_dns_names` reads back the names of a certificate.
use c64_https.Common.{
  ℕ, zero, suc, ◌+◌, ◌^◌, ◌≤◌, ◌<◌, true, false, some, List, [], ◌∷◌, ◌++◌, length, length-append,
  drop, drop-append_length, All, ltb, ok, ok-injective, ◌>>=◌, ◌≡◌, refl, sym, ap, ◌∙◌, arith,
}
use mathlib.Core.List.{append_assoc}
use c64_https.TrustStore.{is_ascii}
use c64_https.HardwareChecks.Positions.{drop_more, length_here}
use c64_https.GenCerts.{
  all_of, seq, octetstring, name_entries, san_value, names_in, san_oid, find_from, walk,
  san_dns_names,
}
use c64_https.GenCerts.Values.{IsTlv, tlv-IsTlv, length-IsTlv, read_tlv-IsTlv, slice_value}

abbrev pub IsName : List ℕ → Type 0
IsName h = is_ascii h ≡ true

-- A bound on the bytes of the entries.
abbrev pub names_size : List (List ℕ) → ℕ
names_size [] = 0
names_size (h ∷ hs) = length h + 6 + names_size hs

-- The entries, one after the other.
abbrev IsEntries : List (List ℕ) → List ℕ → Type 0
IsEntries [] es = es ≡ []
IsEntries (h ∷ hs) es =
    (b : List ℕ) × (others : List ℕ) × IsTlv 0x82 h b × (es ≡ b ++ others) × IsEntries hs others

name_entries-IsEntries :
    (hs : List (List ℕ))
    → All IsName hs
    → names_size hs < 2 ^ 31
    → (es : List ℕ) × (all_of (name_entries hs) ≡ ok es) × IsEntries hs es
unfolding all_of name_entries
name_entries-IsEntries [] a h = ([], refl, refl)
name_entries-IsEntries (n ∷ hs) a h =
    let (others, made, is) = name_entries-IsEntries hs a.1 (omega arith) in
    let (b, one, it) = tlv-IsTlv 0x82 n (omega arith) (omega arith) in
    (b ++ others, rw (a.0, one, made) refl, (b, others, it, refl, is))

length-IsEntries :
    (hs : List (List ℕ)) (es : List ℕ)
    → IsEntries hs es
    → (length hs ≤ length es) × (length es ≤ names_size hs)
length-IsEntries [] es is = let n = ap length is in (omega arith, omega arith)
length-IsEntries (h ∷ hs) es (b, others, it, e, is) =
    let n = ap length e in
    let m = length-append b others in
    let (lo, hi) = length-IsEntries hs others is in
    let (lo', hi') = length-IsTlv 0x82 h b it in (omega arith, omega arith)

names_in-IsEntries :
    (fuel : ℕ) (der : List ℕ) (cur end : ℕ) (hs : List (List ℕ)) (es rest : List ℕ)
    → length hs < fuel
    → All IsName hs
    → IsEntries hs es
    → drop cur der ≡ es ++ rest
    → cur + length es ≡ end
    → names_in fuel der cur end ≡ ok hs
unfolding names_in
names_in-IsEntries zero der cur end hs es rest f a is at stop = absurd (omega arith)
names_in-IsEntries (suc fuel) der cur end [] es rest f a is at stop =
    let n = ap length is in
    let done : ltb cur end ≡ false = ground arith in rw (names_in, done) refl
names_in-IsEntries (suc fuel) der cur end (h ∷ hs) es rest f a (b, others, it, e, is) at stop =
    let at' : drop cur der ≡ b ++ (others ++ rest) =
      at ∙ ap (λ t. t ++ rest) e ∙ append_assoc b others rest in
    let n = ap length e in
    let m = length-append b others in
    let (lo, _) = length-IsTlv 0x82 h b it in
    let more : ltb cur end ≡ true = ground arith in
    let (start, got, there, next) = read_tlv-IsTlv der cur 0x82 h b (others ++ rest) it at' in
    let after : drop (start + length h) der ≡ others ++ rest =
      drop_more der start (h ++ (others ++ rest)) there (length h)
      ∙ drop-append_length (length h) h (others ++ rest) refl in
    let tail =
      names_in-IsEntries fuel der (start + length h) end hs others rest (omega arith) a.1 is after
        (omega arith) in
    rw (names_in, more, got, slice_value der start h (others ++ rest) there, a.0, tail) refl

-- Of a certificate whose first bytes of the OID are the extension's, the reader gives the host names that the
-- extension was made of, in their order.
pub san_dns_names-san_value :
    (before rest octets : List ℕ) (sans : List (List ℕ))
    → All IsName sans
    → names_size sans < 2 ^ 31
    → (san_value sans >>= octetstring) ≡ ok octets
    → find_from san_oid 0 (before ++ (san_oid ++ (octets ++ rest))) ≡ some (length before)
    → san_dns_names (before ++ (san_oid ++ (octets ++ rest))) ≡ sans
unfolding san_dns_names san_value seq octetstring walk
san_dns_names-san_value before rest octets sans a h made found =
    let der : List ℕ = before ++ (san_oid ++ (octets ++ rest)) in
    let i : ℕ = length before in
    let (es, entries, is) = name_entries-IsEntries sans a h in
    let (count, size) = length-IsEntries sans es is in
    let (v, one, it) = tlv-IsTlv 0x30 es (omega arith) (omega arith) in
    let (lo, hi) = length-IsTlv 0x30 es v it in
    let (o, two, it2) = tlv-IsTlv 0x04 v (omega arith) (omega arith) in
    let same : o ≡ octets = ok-injective o octets (rw (entries, one, two) at made) in
    let at0 : drop i der ≡ san_oid ++ (o ++ rest) =
      drop-append_length i before (san_oid ++ (octets ++ rest)) refl
      ∙ ap (λ t. san_oid ++ (t ++ rest)) (sym same) in
    let at5 : drop (i + 5) der ≡ o ++ rest = drop_more der i (san_oid ++ (o ++ rest)) at0 5 in
    let (s1, got1, there1, _) = read_tlv-IsTlv der (i + 5) 0x04 v o rest it2 at5 in
    let (s2, got2, there2, _) = read_tlv-IsTlv der s1 0x30 es v rest it there1 in
    let long = length_here der s2 (es ++ rest) there2 in
    let long0 = length_here der (i + 5) (o ++ rest) at5 in
    let n = length-append es rest in
    let n2 = length-append o rest in
    let (lo2, _) = length-IsTlv 0x04 v o it2 in
    let all =
      names_in-IsEntries (length der) der s2 (s2 + length es) sans es rest (omega arith) a is there2
        refl in
    rw (san_dns_names, found, walk, got1, got2, all) refl
