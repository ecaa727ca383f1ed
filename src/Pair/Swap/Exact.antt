-- ===== src/Pair/Swap/Exact.antt =====
-- `compute_swap` from the other side: on which inputs it answers, and with what.
use prismswap_contracts.Base.{
  ℕ, ◌+◌, ◌-◌, ◌*◌, ◌/◌, ◌≤◌, ◌<◌, ◌≡◌, ap, ◌∙◌, arith, some, ok, panic, ◌>>=◌, must,
  mul-le-mul_left, mul-le-mul, le_of_mul-le-mul_right, div-mul-le, one-mul, div-le_self,
  div-le_of_le-mul, leb, leb→le, leb→lt, Bool-cases, inl, inr, if◌then◌else◌,
}
use prismswap_contracts.Numbers.{Arith, one, u128, u256, IsDocumented}
use prismswap_contracts.Numbers.Laws.{fits-some, quotient-some, difference-some, difference-none}
use prismswap_contracts.Pair.Swap.{compute_swap}
use prismswap_contracts.Pair.Swap.Inversion.{gross_return}

-- The value of the offer at the price of the pool before the swap.
abbrev pub at_price : ℕ → ℕ → ℕ → ℕ
at_price o a x = x * (a * one / o) / one

-- The sizes at which no intermediate result overflows.
pub record FitsSwap (o a x c : ℕ) : Type 0 where
  pub offer_pos : 0 < o
  pub offer_pool : o < u128
  pub ask_pool : a < u128
  pub offer : x < u128
  pub rate : c ≤ one
  pub product : o * a * one < u256
  pub value : x * a * one < u128 * one

module _ (m : Arith) (doc : IsDocumented m) (o a x c : ℕ) (z : FitsSwap o a x c) where
  open doc use {
    add256_law, sub256_law, mul256_law, to_uint128_law, mul_decimal256_law,
    decimal256_from_uint256_law, decimal256_from_ratio_law, decimal256_sub_law,
  }
  open z use {offer_pos, offer_pool, ask_pool, offer, rate, product, value}

  pub within : o * a * one / (o + x) ≤ a * one
  within =
      le_of_mul-le-mul_right {k = o + x}
        (omega (arith, div-mul-le (o * a * one) (o + x) (omega arith))) (omega arith)

  pub gross-le : gross_return o a x ≤ a
  gross-le = omega (arith, div-mul-le (a * one - o * a * one / (o + x)) one (omega arith))

  price_product : x * (a * one / o) < u128 * one
  price_product = omega (arith, value, mul-le-mul_left x (div-le_self (a * one) o))

  -- The calls of `compute_swap`, in their order.
  cp_eq : m.mul256 o a ≡ some (o * a)
  cp_eq = mul256_law o a ∙ fits-some u256 _ (omega (arith, product))

  ask_decimal_eq : m.decimal256_from_uint256 a ≡ some (a * one)
  ask_decimal_eq = decimal256_from_uint256_law a ∙ fits-some u256 _ (omega (arith, ask_pool))

  pool_after_eq : m.add256 o x ≡ some (o + x)
  pool_after_eq = add256_law o x ∙ fits-some u256 _ (omega (arith, offer_pool, offer))

  ask_after_eq : m.decimal256_from_ratio (o * a) (o + x) ≡ some (o * a * one / (o + x))
  ask_after_eq =
      decimal256_from_ratio_law _ _
      ∙ quotient-some u256 _ (o + x) (omega (arith, offer_pos)) product

  ask_change_eq :
      m.decimal256_sub (a * one) (o * a * one / (o + x)) ≡ some (a * one - o * a * one / (o + x))
  ask_change_eq = decimal256_sub_law _ _ ∙ difference-some _ _ within

  gross_eq : m.mul_decimal256 1 (a * one - o * a * one / (o + x)) ≡ some (gross_return o a x)
  gross_eq =
      mul_decimal256_law _ _
      ∙ quotient-some u256 _ one (omega arith) (omega (arith, ask_pool))
      ∙ ap (λ (t : ℕ). some (t / one)) (one-mul _)

  price_eq : m.decimal256_from_ratio a o ≡ some (a * one / o)
  price_eq =
      decimal256_from_ratio_law _ _ ∙ quotient-some u256 _ o offer_pos (omega (arith, ask_pool))

  at_price_eq : m.mul_decimal256 x (a * one / o) ≡ some (at_price o a x)
  at_price_eq =
      mul_decimal256_law _ _ ∙ quotient-some u256 _ one (omega arith) (omega (arith, price_product))

  commission_eq : m.mul_decimal256 (gross_return o a x) c ≡ some (gross_return o a x * c / one)
  commission_eq =
      mul_decimal256_law _ _
      ∙ quotient-some u256 _ one (omega arith) (omega (arith, mul-le-mul gross-le rate, ask_pool))

  pub commission-le : gross_return o a x * c / one ≤ gross_return o a x
  commission-le = div-le_of_le-mul one (omega (arith, mul-le-mul_left (gross_return o a x) rate))

  -- The answer, unless the spread would be negative.
  pub swap_answers :
      gross_return o a x ≤ at_price o a x
      → compute_swap m o a x c
        ≡ ok (
          gross_return o a x - gross_return o a x * c / one,
          at_price o a x - gross_return o a x,
          gross_return o a x * c / one,
        )
  unfolding compute_swap ◌>>=◌ must
  swap_answers le = simp (
    cp_eq,
    ask_decimal_eq,
    pool_after_eq,
    ask_after_eq,
    ask_change_eq,
    gross_eq,
    price_eq,
    at_price_eq,
    commission_eq,
    sub256_law (at_price o a x) (gross_return o a x) ∙ difference-some _ _ le,
    sub256_law (gross_return o a x) _ ∙ difference-some _ _ commission-le,
    to_uint128_law (gross_return o a x - gross_return o a x * c / one)
        ∙ fits-some u128 _ (omega (arith, gross-le, ask_pool)),
    to_uint128_law (at_price o a x - gross_return o a x)
        ∙ fits-some u128 _ (omega (arith, price_product)),
    to_uint128_law (gross_return o a x * c / one)
        ∙ fits-some u128 _ (omega (arith, gross-le, ask_pool, commission-le)),
  )

  swap_panics : at_price o a x < gross_return o a x → compute_swap m o a x c ≡ panic
  unfolding compute_swap ◌>>=◌ must
  swap_panics lt = simp (
    cp_eq,
    ask_decimal_eq,
    pool_after_eq,
    ask_after_eq,
    ask_change_eq,
    gross_eq,
    price_eq,
    at_price_eq,
    sub256_law (at_price o a x) (gross_return o a x) ∙ difference-none _ _ lt,
  )

  -- Of the sizes that fit, the swap is refused for one reason only: at a price that was rounded
  -- down to 18 digits the offer is worth less than the pool pays for it, so that the spread cannot
  -- be subtracted.
  pub compute_swap_exact : compute_swap m o a x c ≡ (
      if leb (gross_return o a x) (at_price o a x)
      then ok (
        gross_return o a x - gross_return o a x * c / one,
        at_price o a x - gross_return o a x,
        gross_return o a x * c / one,
      )
      else panic)
  compute_swap_exact = elim (Bool-cases (leb (gross_return o a x) (at_price o a x))) [
    | inl le ↦ rw le (swap_answers (leb→le _ _ le))
    | inr gt ↦ rw gt (swap_panics (leb→lt _ _ gt))
  ]
