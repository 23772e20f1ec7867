-- ===== src/BodyChecks/Seconds.antt =====
-- A Python float that stands for seconds: a whole number of milliseconds of either sign, or one of
-- the values that `math.isfinite` refuses.
use c64_https.Common.{ℕ, ◌-◌, Bool, true, false, ltb, leb, if◌then◌else◌}

pub data Seconds : Type 0 where
  ms : ℕ → Seconds
  -- n + 1 milliseconds below zero
  below : ℕ → Seconds
  inf : Seconds
  minus_inf : Seconds
  nan : Seconds

abbrev pub is_finite : Seconds → Bool
is_finite (ms n) = true
is_finite (below n) = true
is_finite _ = false

-- `a < b`, which is False whenever one side is NaN
abbrev pub less : Seconds → Seconds → Bool
less (ms a) (ms b) = ltb a b
less (ms a) inf = true
less (ms a) _ = false
less (below a) (ms b) = true
less (below a) (below b) = ltb b a
less (below a) inf = true
less (below a) _ = false
less minus_inf (ms b) = true
less minus_inf (below b) = true
less minus_inf inf = true
less minus_inf _ = false
less inf _ = false
less nan _ = false

-- `a >= b`, which is no `not (a < b)` where one side is NaN
abbrev pub at_least : Seconds → Seconds → Bool
at_least nan b = false
at_least (ms a) nan = false
at_least (below a) nan = false
at_least inf nan = false
at_least minus_inf nan = false
at_least a b = if less a b then false else true

-- The difference of two readings of a clock, in milliseconds.
abbrev pub elapsed : ℕ → ℕ → Seconds
elapsed now then_ = if leb then_ now then ms (now - then_) else below (then_ - now - 1)
