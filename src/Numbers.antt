-- ===== src/Numbers.antt =====
-- The arithmetic of the crates that the contracts call: `Uint128` and `Decimal` of cosmwasm_std,
-- `Uint256` and `Decimal256` of cosmwasm_bignumber, and `integer_sqrt`. None of them is in the
-- repository, so the operations are a record that every definition takes, and what the crates
-- document of them is a second record, taken by the theorems.
--
-- A value of each of these types is the natural number that it holds: for `Decimal` and
-- `Decimal256` the number of atomics, 10^18 of which make one. The conversions `Uint128` into
-- `Uint256` and `Decimal` into `Decimal256` keep that number; `==`, `<`, `is_zero` and `min` are
-- those of numbers. An operation gives `none` where the call panics.
pub mod Reference
pub mod Laws
use prismswap_contracts.Base.{
  ℕ, ◌+◌, ◌-◌, ◌*◌, ◌/◌, ◌^◌, ◌≤◌, ◌<◌, ◌≡◌, Option, none, some, ltb, leb, ◌==◌, if◌then◌else◌,
}

-- The atomics of the decimal 1.
abbrev pub one : ℕ
one = 10 ^ 18

abbrev pub u128 : ℕ
u128 = 2 ^ 128

abbrev pub u256 : ℕ
u256 = 2 ^ 256

pub record Arith : Type 0 where
  -- `Uint128::checked_sub`, `Uint128 + Uint128`
  pub checked_sub : ℕ → ℕ → Option ℕ
  pub add128 : ℕ → ℕ → Option ℕ
  -- u128 * u128 under overflow-checks
  pub mul128 : ℕ → ℕ → Option ℕ
  -- `a.multiply_ratio(n, d)`, and the limit on its intermediate product
  pub multiply_ratio : ℕ → ℕ → ℕ → Option ℕ
  pub ratio_limit : ℕ
  -- `Uint128 * Decimal`, `Decimal::from_ratio`
  pub mul_decimal : ℕ → ℕ → Option ℕ
  pub decimal_from_ratio : ℕ → ℕ → Option ℕ
  -- `+`, `-`, `*` and `multiply_ratio` of `Uint256`, and `Uint128::from(Uint256)`
  pub add256 : ℕ → ℕ → Option ℕ
  pub sub256 : ℕ → ℕ → Option ℕ
  pub mul256 : ℕ → ℕ → Option ℕ
  pub multiply_ratio256 : ℕ → ℕ → ℕ → Option ℕ
  pub to_uint128 : ℕ → Option ℕ
  -- `Uint256 * Decimal256` and `Uint256 / Decimal256`
  pub mul_decimal256 : ℕ → ℕ → Option ℕ
  pub div_decimal256 : ℕ → ℕ → Option ℕ
  -- `Decimal256::from_uint256`, `from_ratio`, `-`, `*`, `/`, and `Decimal::from(Decimal256)`
  pub decimal256_from_uint256 : ℕ → Option ℕ
  pub decimal256_from_ratio : ℕ → ℕ → Option ℕ
  pub decimal256_sub : ℕ → ℕ → Option ℕ
  pub decimal256_mul : ℕ → ℕ → Option ℕ
  pub decimal256_div : ℕ → ℕ → Option ℕ
  pub to_decimal : ℕ → Option ℕ
  -- `IntegerSquareRoot::integer_sqrt` on u128
  pub integer_sqrt : ℕ → ℕ

-- The value, if it is below the limit.
abbrev pub fits : ℕ → ℕ → Option ℕ
fits limit v = if ltb v limit then some v else none

-- `n / d` rounded down, where the dividend fits its type; division by zero panics.
abbrev pub quotient : ℕ → ℕ → ℕ → Option ℕ
quotient limit n d = if d == 0 then none else if ltb n limit then some (n / d) else none

-- `a - b`, which panics, or is an error, below zero.
abbrev pub difference : ℕ → ℕ → Option ℕ
difference a b = if leb b a then some (a - b) else none

-- What the crates document: sums, differences and products are exact or refused, ratios are
-- rounded down, and a zero divisor panics.
pub record IsDocumented (m : Arith) : Type 0 where
  pub checked_sub_law : (a b : ℕ) → m.checked_sub a b ≡ difference a b
  pub add128_law : (a b : ℕ) → m.add128 a b ≡ fits u128 (a + b)
  pub mul128_law : (a b : ℕ) → m.mul128 a b ≡ fits u128 (a * b)
  pub multiply_ratio_law :
      (a n d : ℕ)
      → m.multiply_ratio a n d ≡ (
          if d == 0
          then none
          else if ltb (a * n) m.ratio_limit
          then fits u128 (a * n / d)
          else none)
  pub ratio_limit_law : u128 ≤ m.ratio_limit
  pub mul_decimal_law : (a d : ℕ) → m.mul_decimal a d ≡ m.multiply_ratio a d one
  pub decimal_from_ratio_law : (n d : ℕ) → m.decimal_from_ratio n d ≡ m.multiply_ratio n one d
  pub add256_law : (a b : ℕ) → m.add256 a b ≡ fits u256 (a + b)
  pub sub256_law : (a b : ℕ) → m.sub256 a b ≡ difference a b
  pub mul256_law : (a b : ℕ) → m.mul256 a b ≡ fits u256 (a * b)
  pub multiply_ratio256_law : (a n d : ℕ) → m.multiply_ratio256 a n d ≡ quotient u256 (a * n) d
  pub to_uint128_law : (a : ℕ) → m.to_uint128 a ≡ fits u128 a
  pub mul_decimal256_law : (a d : ℕ) → m.mul_decimal256 a d ≡ quotient u256 (a * d) one
  pub div_decimal256_law : (a d : ℕ) → m.div_decimal256 a d ≡ quotient u256 (a * one) d
  pub decimal256_from_uint256_law : (a : ℕ) → m.decimal256_from_uint256 a ≡ fits u256 (a * one)
  pub decimal256_from_ratio_law :
      (n d : ℕ) → m.decimal256_from_ratio n d ≡ quotient u256 (n * one) d
  pub decimal256_sub_law : (a b : ℕ) → m.decimal256_sub a b ≡ difference a b
  pub decimal256_mul_law : (a b : ℕ) → m.decimal256_mul a b ≡ quotient u256 (a * b) one
  pub decimal256_div_law : (a b : ℕ) → m.decimal256_div a b ≡ quotient u256 (a * one) b
  pub to_decimal_law : (a : ℕ) → m.to_decimal a ≡ fits u128 a
  pub integer_sqrt_law :
      (n : ℕ)
      → (m.integer_sqrt n * m.integer_sqrt n ≤ n)
        × (n < (m.integer_sqrt n + 1) * (m.integer_sqrt n + 1))
