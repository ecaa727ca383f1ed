-- ===== src/Numbers/Laws.antt =====
-- What the value of an operation says, by what the crates document.
use prismswap_contracts.Base.{
  ℕ, ◌+◌, ◌-◌, ◌≤◌, ◌*◌, ◌/◌, ◌<◌, ◌≡◌, sym, ◌∙◌, arith, none, some, ltb, ◌==◌, if◌then◌else◌,
}
use prismswap_contracts.Numbers.{Arith, one, u128, u256, fits, quotient, difference, IsDocumented}

fits-eq-some : (limit v : ℕ) {r : ℕ} → fits limit v ≡ some r → (r ≡ v) × (v < limit)
fits-eq-some limit v h = ground arith

quotient-eq-some :
    (limit n d : ℕ) {r : ℕ} → quotient limit n d ≡ some r → (r ≡ n / d) × (0 < d) × (n < limit)
quotient-eq-some limit n d h = ground arith

difference-eq-some : (a b : ℕ) {r : ℕ} → difference a b ≡ some r → r + b ≡ a
difference-eq-some a b h = ground arith

ratio-eq-some :
    (limit n d : ℕ) {r : ℕ}
    → (if d == 0 then none else if ltb n limit then fits u128 (n / d) else none) ≡ some r
    → (r ≡ n / d) × (0 < d) × (r < u128)
ratio-eq-some limit n d h = ground arith

pub fits-some : (limit v : ℕ) → v < limit → fits limit v ≡ some v
fits-some limit v h = ground arith

pub quotient-some : (limit n d : ℕ) → 0 < d → n < limit → quotient limit n d ≡ some (n / d)
quotient-some limit n d p h = ground arith

pub difference-some : (a b : ℕ) → b ≤ a → difference a b ≡ some (a - b)
difference-some a b h = ground arith

pub difference-none : (a b : ℕ) → a < b → difference a b ≡ none
difference-none a b h = ground arith

pub ratio-some :
    (limit n d : ℕ)
    → 0 < d
    → n < limit
    → n / d < u128
    → (if d == 0 then none else if ltb n limit then fits u128 (n / d) else none) ≡ some (n / d)
ratio-some limit n d pos h k = ground arith

module _ (m : Arith) (doc : IsDocumented m) {r : ℕ} where
  open doc use {
    checked_sub_law, add128_law, mul128_law, multiply_ratio_law, mul_decimal_law,
    decimal_from_ratio_law, add256_law, sub256_law, mul256_law, multiply_ratio256_law,
    to_uint128_law, mul_decimal256_law, div_decimal256_law, decimal256_from_uint256_law,
    decimal256_from_ratio_law, decimal256_sub_law, decimal256_mul_law, decimal256_div_law,
    to_decimal_law,
  }

  pub checked_sub-eq-some : (a b : ℕ) → m.checked_sub a b ≡ some r → r + b ≡ a
  checked_sub-eq-some a b h = difference-eq-some a b (sym (checked_sub_law a b) ∙ h)

  pub add128-eq-some : (a b : ℕ) → m.add128 a b ≡ some r → r ≡ a + b
  add128-eq-some a b h = (fits-eq-some u128 _ (sym (add128_law a b) ∙ h)).0

  pub mul128-eq-some : (a b : ℕ) → m.mul128 a b ≡ some r → (r ≡ a * b) × (a * b < u128)
  mul128-eq-some a b h = fits-eq-some u128 _ (sym (mul128_law a b) ∙ h)

  pub multiply_ratio-eq-some :
      (a n d : ℕ) → m.multiply_ratio a n d ≡ some r → (r ≡ a * n / d) × (0 < d) × (r < u128)
  multiply_ratio-eq-some a n d h =
      ratio-eq-some m.ratio_limit (a * n) d (sym (multiply_ratio_law a n d) ∙ h)

  pub mul_decimal-eq-some : (a d : ℕ) → m.mul_decimal a d ≡ some r → r ≡ a * d / one
  mul_decimal-eq-some a d h = (multiply_ratio-eq-some a d one (sym (mul_decimal_law a d) ∙ h)).0

  pub decimal_from_ratio-eq-some :
      (n d : ℕ) → m.decimal_from_ratio n d ≡ some r → (r ≡ n * one / d) × (0 < d)
  decimal_from_ratio-eq-some n d h =
      let q = multiply_ratio-eq-some n one d (sym (decimal_from_ratio_law n d) ∙ h) in (q.0, q.1)

  pub add256-eq-some : (a b : ℕ) → m.add256 a b ≡ some r → r ≡ a + b
  add256-eq-some a b h = (fits-eq-some u256 _ (sym (add256_law a b) ∙ h)).0

  pub sub256-eq-some : (a b : ℕ) → m.sub256 a b ≡ some r → r + b ≡ a
  sub256-eq-some a b h = difference-eq-some a b (sym (sub256_law a b) ∙ h)

  pub mul256-eq-some : (a b : ℕ) → m.mul256 a b ≡ some r → r ≡ a * b
  mul256-eq-some a b h = (fits-eq-some u256 _ (sym (mul256_law a b) ∙ h)).0

  pub multiply_ratio256-eq-some :
      (a n d : ℕ) → m.multiply_ratio256 a n d ≡ some r → (r ≡ a * n / d) × (0 < d)
  multiply_ratio256-eq-some a n d h =
      let q = quotient-eq-some u256 (a * n) d (sym (multiply_ratio256_law a n d) ∙ h) in (q.0, q.1)

  pub to_uint128-eq-some : (a : ℕ) → m.to_uint128 a ≡ some r → (r ≡ a) × (a < u128)
  to_uint128-eq-some a h = fits-eq-some u128 a (sym (to_uint128_law a) ∙ h)

  pub mul_decimal256-eq-some : (a d : ℕ) → m.mul_decimal256 a d ≡ some r → r ≡ a * d / one
  mul_decimal256-eq-some a d h =
      (quotient-eq-some u256 (a * d) one (sym (mul_decimal256_law a d) ∙ h)).0

  pub div_decimal256-eq-some :
      (a d : ℕ) → m.div_decimal256 a d ≡ some r → (r ≡ a * one / d) × (0 < d)
  div_decimal256-eq-some a d h =
      let q = quotient-eq-some u256 (a * one) d (sym (div_decimal256_law a d) ∙ h) in (q.0, q.1)

  pub decimal256_from_uint256-eq-some : (a : ℕ) → m.decimal256_from_uint256 a ≡ some r → r ≡ a * one
  decimal256_from_uint256-eq-some a h =
      (fits-eq-some u256 _ (sym (decimal256_from_uint256_law a) ∙ h)).0

  pub decimal256_from_ratio-eq-some :
      (n d : ℕ) → m.decimal256_from_ratio n d ≡ some r → (r ≡ n * one / d) × (0 < d)
  decimal256_from_ratio-eq-some n d h =
      let q = quotient-eq-some u256 (n * one) d (sym (decimal256_from_ratio_law n d) ∙ h) in
      (q.0, q.1)

  pub decimal256_sub-eq-some : (a b : ℕ) → m.decimal256_sub a b ≡ some r → r + b ≡ a
  decimal256_sub-eq-some a b h = difference-eq-some a b (sym (decimal256_sub_law a b) ∙ h)

  pub decimal256_mul-eq-some : (a b : ℕ) → m.decimal256_mul a b ≡ some r → r ≡ a * b / one
  decimal256_mul-eq-some a b h =
      (quotient-eq-some u256 (a * b) one (sym (decimal256_mul_law a b) ∙ h)).0

  pub decimal256_div-eq-some :
      (a b : ℕ) → m.decimal256_div a b ≡ some r → (r ≡ a * one / b) × (0 < b)
  decimal256_div-eq-some a b h =
      let q = quotient-eq-some u256 (a * one) b (sym (decimal256_div_law a b) ∙ h) in (q.0, q.1)

  pub to_decimal-eq-some : (a : ℕ) → m.to_decimal a ≡ some r → r ≡ a
  to_decimal-eq-some a h = (fits-eq-some u128 a (sym (to_decimal_law a) ∙ h)).0
