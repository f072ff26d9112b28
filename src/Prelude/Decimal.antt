-- ===== src/Prelude/Decimal.antt =====
-- `Display` of an unsigned integer.
use Prim.Native.String as Text
use Prim.Native.Nat.{◌/◌}
use feature_probe_server.Prelude.Tests.{ltb, if◌then◌else◌, Bool-cases}
use Prim.Native.Nat.{ℕ, zero, suc, ◌+◌, ◌%◌, ◌<◌, ◌≤◌}
use Prim.Native.String.{String}
use mathlib.Core.Path.{◌≡◌, refl, ap}
use mathlib.Core.Bool.{true, false}
use mathlib.Core.Logic.{inl, inr}
use native.Mathlib.Omega.{arith}

abbrev pub digit : ℕ → String
digit d = Text.slice "0123456789" d (d + 1)

-- On as much fuel as the number is large.
decimal_fuel : ℕ → ℕ → String
decimal_fuel zero n = ""
decimal_fuel (suc fuel) n = elim (ltb n 10) [
  | true ↦ digit n
  | false ↦ Text.◌++◌ (decimal_fuel fuel (n / 10)) (digit (n % 10))
]

unfoldable pub decimal : ℕ → String
unfolding decimal_fuel
decimal n = decimal_fuel (suc n) n

decimal_fuel_enough : (f g n : ℕ) → n < f → n < g → decimal_fuel f n ≡ decimal_fuel g n
unfolding decimal_fuel
decimal_fuel_enough zero g n h k = absurd (omega arith)
decimal_fuel_enough (suc f) zero n h k = absurd (omega arith)
decimal_fuel_enough (suc f) (suc g) n h k = elim (Bool-cases (ltb n 10)) [
  | inl short ↦ rw (short, decimal_fuel) refl
  | inr long ↦
      let above : 10 ≤ n = ground arith in
      rw (long, decimal_fuel)
        (ap (λ s. Text.◌++◌ s (digit (n % 10)))
          (decimal_fuel_enough f g (n / 10) (omega arith) (omega arith)))
]

-- The last digit stands after the decimal of the rest.
pub decimal_lem :
    (n : ℕ)
    → decimal n ≡ (if ltb n 10 then digit n else Text.◌++◌ (decimal (n / 10)) (digit (n % 10)))
unfolding decimal decimal_fuel
decimal_lem n = elim (Bool-cases (ltb n 10)) [
  | inl short ↦ rw (short, decimal_fuel) refl
  | inr long ↦
      let above : 10 ≤ n = ground arith in
      rw (long, decimal_fuel)
        (ap (λ s. Text.◌++◌ s (digit (n % 10)))
          (decimal_fuel_enough n (suc (n / 10)) (n / 10) (omega arith) (omega arith)))
]

decimal_runs : decimal 65535 ≡ "65535"
unfolding decimal decimal_fuel
decimal_runs = refl
