-- ===== src/Numbers/Reference.antt =====
-- Arithmetic that meets what the crates document, for tests and examples.
use prismswap_contracts.Base.{
  ℕ, zero, suc, ◌+◌, ◌*◌, ◌/◌, ◌≤◌, ◌<◌, refl, none, arith, ltb, leb, ◌==◌, if◌then◌else◌,
}
use prismswap_contracts.Numbers.{one, u128, u256, Arith, fits, quotient, difference, IsDocumented}

-- The largest number whose square is at most `n`.
unfoldable pub square_root : ℕ → ℕ
square_root zero = 0
square_root (suc n) = let r = square_root n in if leb ((r + 1) * (r + 1)) (suc n) then r + 1 else r

square_root_lem :
    (n : ℕ) → (square_root n * square_root n ≤ n) × (n < (square_root n + 1) * (square_root n + 1))
unfolding square_root
square_root_lem zero = (omega arith, omega arith)
square_root_lem (suc n) = grind (arith, square_root_lem n)

abbrev pub reference : Arith
reference = record {
  checked_sub = difference;
  add128 = λ a b. fits u128 (a + b);
  mul128 = λ a b. fits u128 (a * b);
  multiply_ratio =
      λ a n d. if d == 0 then none else if ltb (a * n) u256 then fits u128 (a * n / d) else none;
  ratio_limit = u256;
  mul_decimal = λ a d. if ltb (a * d) u256 then fits u128 (a * d / one) else none;
  decimal_from_ratio =
      λ n d. if d == 0 then none else if ltb (n * one) u256 then fits u128 (n * one / d) else none;
  add256 = λ a b. fits u256 (a + b);
  sub256 = difference;
  mul256 = λ a b. fits u256 (a * b);
  multiply_ratio256 = λ a n d. quotient u256 (a * n) d;
  to_uint128 = fits u128;
  mul_decimal256 = λ a d. quotient u256 (a * d) one;
  div_decimal256 = λ a d. quotient u256 (a * one) d;
  decimal256_from_uint256 = λ a. fits u256 (a * one);
  decimal256_from_ratio = λ n d. quotient u256 (n * one) d;
  decimal256_sub = difference;
  decimal256_mul = λ a b. quotient u256 (a * b) one;
  decimal256_div = λ a b. quotient u256 (a * one) b;
  to_decimal = fits u128;
  integer_sqrt = square_root;
}

pub reference-IsDocumented : IsDocumented reference
unfolding square_root
reference-IsDocumented = record {
  checked_sub_law = λ a b. refl;
  add128_law = λ a b. refl;
  mul128_law = λ a b. refl;
  multiply_ratio_law = λ a n d. refl;
  ratio_limit_law = omega arith;
  mul_decimal_law = λ a d. refl;
  decimal_from_ratio_law = λ n d. refl;
  add256_law = λ a b. refl;
  sub256_law = λ a b. refl;
  mul256_law = λ a b. refl;
  multiply_ratio256_law = λ a n d. refl;
  to_uint128_law = λ a. refl;
  mul_decimal256_law = λ a d. refl;
  div_decimal256_law = λ a d. refl;
  decimal256_from_uint256_law = λ a. refl;
  decimal256_from_ratio_law = λ n d. refl;
  decimal256_sub_law = λ a b. refl;
  decimal256_mul_law = λ a b. refl;
  decimal256_div_law = λ a b. refl;
  to_decimal_law = λ a. refl;
  integer_sqrt_law = square_root_lem;
}
