-- ===== src/EvilListener/ClientHello/Fuel.antt =====
-- tools/https_e2e/evil_listener.py: the loops of `parse_client_hello` end before their fuel does.
use c64_https.Common.{
  ℕ, zero, suc, ◌+◌, ◌/◌, ◌≤◌, Bool, true, false, Option, none, some, List, [], ◌∷◌, length,
  drop_all, drop, take, slice, ltb, ◌==◌, any, Result, ok, raised, ◌>>=◌, guard, out_of_fuel,
  struct_error, fixture_error, not_client_hello, no_suite, ◌≡◌, ◌≢◌, ap, ◌∙◌, arith, Bool-cases,
  inl, inr,
}
use c64_https.Common.Bytes.{index}
use c64_https.HardwareChecks.Positions.{slice_lem}
use c64_https.EvilListener.{unpack_be16, ext_key_share, group_x25519, tls_chacha20_poly1305_sha256}
use c64_https.EvilListener.ClientHello.{
  read16, suites_from, share_from, share_of, found, extensions_from, required, begins_client_hello,
  parse_client_hello,
}

-- A result, or an exception of the source: the fuel has not run out.
abbrev pub Ends {ℓ} : {A : Type ℓ} → Result A → Type ℓ
Ends r = r ≢ raised out_of_fuel

ok-Ends {ℓ} : {A : Type ℓ} (a : A) → Ends (ok a)
ok-Ends a e = cc

fixture_error-Ends {ℓ} : {A : Type ℓ} (why : _) → Ends {A = A} (raised (fixture_error why))
fixture_error-Ends why e = cc

Ends->>= {ℓ₁ ℓ₂} :
    {A : Type ℓ₁} {B : Type ℓ₂} (r : Result A) (f : A → Result B)
    → Ends r
    → ((a : A) → Ends (f a))
    → Ends (r >>= f)
Ends->>= (ok a) f h k = k a
Ends->>= (raised fault) f h k = λ e. h (let same : fault ≡ out_of_fuel = cc in ap raised same)

guard-Ends : (test : Bool) (why : _) → Ends (guard test (fixture_error why))
guard-Ends true why = ok-Ends tt
guard-Ends false why = fixture_error-Ends why

unpack_be16-Ends : (bs : List ℕ) → Ends (unpack_be16 bs)
unfolding unpack_be16
unpack_be16-Ends [] e = cc
unpack_be16-Ends (a ∷ []) e = cc
unpack_be16-Ends (a ∷ b ∷ []) e = cc
unpack_be16-Ends (a ∷ b ∷ c ∷ bs) e = cc

read16-Ends : (bs : List ℕ) (off : ℕ) → Ends (read16 bs off)
unfolding read16
read16-Ends bs off = unpack_be16-Ends (slice off (off + 2) bs)

index-Ends : (bs : List ℕ) (off : ℕ) → Ends (index bs off)
unfolding index
index-Ends [] off = λ e. cc
index-Ends (b ∷ bs) zero = λ e. cc
index-Ends (b ∷ bs) (suc off) = index-Ends bs off

-- Nothing is to be read behind the end.
read16_past : (bs : List ℕ) (off : ℕ) → length bs ≤ off → read16 bs off ≡ raised struct_error
unfolding read16 unpack_be16
read16_past bs off h = ap unpack_be16 (slice_lem off 2 bs ∙ ap (take 2) (drop_all off bs h))

suites_from-Ends : (k : ℕ) (body : List ℕ) (off : ℕ) → Ends (suites_from k body off)
unfolding suites_from
suites_from-Ends zero body off = ok-Ends []
suites_from-Ends (suc k) body off = Ends->>= (read16 body off) _ (read16-Ends body off) λ suite.
    Ends->>= (suites_from k body (off + 2)) _ (suites_from-Ends k body (off + 2))
      λ others. ok-Ends (suite ∷ others)

share_from-Ends :
    (fuel : ℕ) (bs : List ℕ) (q : ℕ) → length bs ≤ q + fuel → Ends (share_from (suc fuel) bs q)
unfolding share_from
share_from-Ends zero bs q h =
    let past : ltb q (length bs) ≡ false = ground arith in rw (share_from, past) (ok-Ends none)
share_from-Ends (suc fuel) bs q h = elim (Bool-cases (ltb q (length bs))) [
  | inr e ↦ rw (share_from, e) (ok-Ends none)
  | inl e ↦
      rw (share_from, e)
        (Ends->>= (read16 bs q) _ (read16-Ends bs q) λ group.
          Ends->>= (read16 bs (q + 2)) _ (read16-Ends bs (q + 2)) λ klen.
            elim (Bool-cases (group == group_x25519)) [
              | inl x ↦ rw x (ok-Ends (some (slice (q + 4) (q + 4 + klen) bs)))
              | inr x ↦ rw x (share_from-Ends fuel bs (q + 4 + klen) (omega arith))
            ])
]

share_of-Ends : (ext_type : ℕ) (bs : List ℕ) → Ends (share_of ext_type bs)
unfolding share_of
share_of-Ends ext_type bs = elim (Bool-cases (ext_type == ext_key_share)) [
  | inl e ↦ rw (share_of, e) (share_from-Ends (length bs) bs 2 (omega arith))
  | inr e ↦ rw (share_of, e) (ok-Ends none)
]

extensions_from-Ends :
    (fuel : ℕ) (body : List ℕ) (p end : ℕ) (share : Option (List ℕ))
    → length body ≤ p + fuel
    → Ends (extensions_from (suc fuel) body p end share)
unfolding extensions_from
extensions_from-Ends zero body p end share h = elim (Bool-cases (ltb p end)) [
  | inr e ↦ rw (extensions_from, e) (ok-Ends share)
  | inl e ↦
      rw (extensions_from, e, read16_past body p (omega arith))
        (λ x. let no : struct_error ≡ out_of_fuel = cc in cc)
]
extensions_from-Ends (suc fuel) body p end share h = elim (Bool-cases (ltb p end)) [
  | inr e ↦ rw (extensions_from, e) (ok-Ends share)
  | inl e ↦
      rw (extensions_from, e)
        (Ends->>= (read16 body p) _ (read16-Ends body p) λ ext_type.
          Ends->>= (read16 body (p + 2)) _ (read16-Ends body (p + 2)) λ ext_len.
            let content : List ℕ = slice (p + 4) (p + 4 + ext_len) body in
            Ends->>= (share_of ext_type content) _ (share_of-Ends ext_type content) λ here.
              extensions_from-Ends fuel body (p + 4 + ext_len) end (found here share) (omega arith))
]

required-Ends : (share : Option (List ℕ)) → Ends (required share)
required-Ends none = fixture_error-Ends _
required-Ends (some share) = ok-Ends share

-- On every message, also one that is cut short or whose lengths point anywhere, all loops of
-- `parse_client_hello` end before their fuel does: it returns a ClientHello or raises an exception of the
-- source's.
pub parse_client_hello-Ends : (msg : List ℕ) → Ends (parse_client_hello msg)
unfolding parse_client_hello
parse_client_hello-Ends msg =
    Ends->>= (guard (begins_client_hello msg) (fixture_error not_client_hello)) _
      (guard-Ends (begins_client_hello msg) not_client_hello)
      λ _.
        let body : List ℕ = drop 4 msg in
        Ends->>= (index body 34) _ (index-Ends body 34) λ sid_len.
          let p1 : ℕ = 35 + sid_len in
          Ends->>= (read16 body p1) _ (read16-Ends body p1) λ cs_len.
            let count : ℕ = (cs_len + 1) / 2 in
            Ends->>= (suites_from count body (p1 + 2)) _ (suites_from-Ends count body (p1 + 2))
              λ suites.
                let p2 : ℕ = p1 + 2 + cs_len in
                Ends->>= (index body p2) _ (index-Ends body p2) λ comp_len.
                  let p3 : ℕ = p2 + (1 + comp_len) in
                  Ends->>= (read16 body p3) _ (read16-Ends body p3) λ ext_total.
                    Ends->>=
                      (extensions_from (suc (length body)) body (p3 + 2) (p3 + 2 + ext_total) none)
                      _
                      (extensions_from-Ends (length body) body (p3 + 2) (p3 + 2 + ext_total) none
                        (omega arith))
                      λ share.
                        Ends->>=
                          (guard (any (λ s. s == tls_chacha20_poly1305_sha256) suites)
                            (fixture_error no_suite))
                          _
                          (guard-Ends (any (λ s. s == tls_chacha20_poly1305_sha256) suites)
                            no_suite)
                          λ _. Ends->>= (required share) _ (required-Ends share) λ key. ok-Ends _
