-- ===== src/Common/Faults.antt =====
-- Python's exceptions: a function that may raise returns a `Result`.
use Prim.Native.Nat.{ℕ}
use mathlib.Core.Path.{◌≡◌, refl}
use mathlib.Core.Bool.{Bool, true, false}

-- What the tools raise. `store_error` is `trust_store.StoreError` with its code, and a message of
-- `trust_bundle.BundleError` is told apart by the check that raises it.
pub data BundleCheck : Type 0 where
  host_not_ascii host_length host_charset : BundleCheck
  record_mode record_flags record_uses : BundleCheck
  generation_range record_count duplicate_host : BundleCheck
  too_short bad_magic bad_version bad_count bad_length not_ascending signature_range : BundleCheck
  signature_invalid below_floor floor_range : BundleCheck
  pin_separator pin_hex port_digits : BundleCheck

-- What makes `ip65_hw_checks.parse_pcap` raise a `PcapError`.
pub data PcapCheck : Type 0 where
  no_header unknown_magic link_type oversized clipped : PcapCheck

-- What makes `evil_listener` raise a `TlsFixtureError`.
pub data Fixture : Type 0 where
  not_client_hello no_suite no_key_share all_padding : Fixture
  closed_early not_handshake : Fixture

-- `out_of_fuel` is none of them: a loop of the model that its fuel does not reach the end of gives it.
pub data Fault : Type 0 where
  store_error : ℕ → Fault
  bundle_error : BundleCheck → Fault
  pcap_error : PcapCheck → Fault
  value_error struct_error unicode_error type_error overflow_error key_error index_error : Fault
  assertion_error not_implemented zero_division_error timeout_error : Fault
  fixture_error : Fixture → Fault
  out_of_fuel : Fault

pub data Result {ℓ} (A : Type ℓ) : Type ℓ where
  ok : A → Result A
  raised : Fault → Result A

-- `if not test: raise fault`
abbrev pub guard : (test : Bool) (fault : Fault) → Result (Unit {0})
guard false fault = raised fault
guard true fault = ok tt

-- A statement that may raise, and what the function goes on with.
infixl 5 ◌>>=◌
abbrev pub ◌>>=◌ {ℓ₁ ℓ₂} :
    {Value : Type ℓ₁} {Returned : Type ℓ₂} (first : Result Value) (rest : Value → Result Returned)
    → Result Returned
raised fault >>= rest = raised fault
ok value >>= rest = rest value

infixl 5 ◌>>◌
abbrev pub ◌>>◌ {ℓ₂} :
    {Returned : Type ℓ₂} (first : Result (Unit {0})) (rest : Result Returned) → Result Returned
first >> rest = first >>= λ _. rest

pub >>=-eq-ok {ℓ₁ ℓ₂} :
    {Value : Type ℓ₁} {Returned : Type ℓ₂} (first : Result Value) (rest : Value → Result Returned)
    {returned : Returned}
    → (first >>= rest) ≡ ok returned
    → (value : Value) × (first ≡ ok value) × (rest value ≡ ok returned)
>>=-eq-ok (raised fault) rest h = cc
>>=-eq-ok (ok value) rest h = (value, refl, h)

-- Statements that agree on what is returned agree.
pub >>=-cong {ℓ₁ ℓ₂} :
    {Value : Type ℓ₁} {Returned : Type ℓ₂} (first : Result Value) (f g : Value → Result Returned)
    → ((value : Value) → f value ≡ g value)
    → (first >>= f) ≡ (first >>= g)
>>=-cong (raised fault) f g h = refl
>>=-cong (ok value) f g h = h value

pub ok-pair {ℓ κ} :
    {A : Type ℓ} {B : Type κ} (a a' : A) (b b' : B)
    → ◌≡◌ {A = Result (A × B)} (ok (a, b)) (ok (a', b'))
    → (a ≡ a') × (b ≡ b')
ok-pair a a' b b' h = (cc, cc)

pub ok-injective {ℓ} : {A : Type ℓ} (a b : A) → ok a ≡ ok b → a ≡ b
ok-injective a b h = cc

pub guard-eq-ok {ℓ} :
    {A : Type ℓ} (t : Bool) (e : Fault) (m : Result A) {a : A}
    → (guard t e >> m) ≡ ok a
    → (t ≡ true) × (m ≡ ok a)
guard-eq-ok true e m h = (refl, h)
guard-eq-ok false e m h = cc
