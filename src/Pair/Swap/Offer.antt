-- ===== src/Pair/Swap/Offer.antt =====
-- When `compute_offer_amount` answers, and with what.
use prismswap_contracts.Base.{
  ℕ, ◌+◌, ◌-◌, ◌*◌, ◌/◌, ◌≤◌, ◌<◌, ◌≡◌, refl, ◌∙◌, ap, arith, some, ok, leb, leb→le, leb→lt,
  Bool-cases, inl, inr, unwrap_or, must-some, bind-ok, ok_or-some, lt-div-mul, div-le_self,
  mul-le-mul_left, mul-le-mul_right, div-le_of_le-mul,
}
use prismswap_contracts.Numbers.{Arith, one, u128, u256, IsDocumented, difference}
use prismswap_contracts.Numbers.Laws.{
  fits-some, quotient-some, difference-some, difference-none, ratio-some,
}
use prismswap_contracts.Pair.Swap.{compute_offer_amount}
use prismswap_contracts.Pair.Swap.Reverse.{before_commission, compute_offer_amount_exact}

-- The offer for a return of `y` before commission, and its value at the price of the pool.
abbrev pub offer_for : (o a y c : ℕ) → ℕ
offer_for o a y c = o * a / (a - before_commission y c) - o

abbrev pub value_of : (o a y c : ℕ) → ℕ
value_of o a y c = offer_for o a y c * (a * one / o) / one

-- The sizes at which no intermediate result overflows.
pub record FitsQuote (m : Arith) (o a y c : ℕ) : Type 0 where
  pub offer_pos : 0 < o
  pub ask_pool : a < u128
  pub rate : c < one
  pub below : before_commission y c < a
  pub product : o * a < u256
  pub offer_after : o * a / (a - before_commission y c) < u128
  pub asked : y * (one * one / (one - c)) < m.ratio_limit
  pub whole : a * one < m.ratio_limit
  pub price : a * one / o < u128
  pub value : offer_for o a y c * (a * one / o) < m.ratio_limit
  pub value_fits : value_of o a y c < u128

saturated : (a b : ℕ) → unwrap_or (difference a b) 0 ≡ a - b
unfolding unwrap_or
saturated a b = elim (Bool-cases (leb b a)) [
  | inl le ↦ rw (difference-some a b (leb→le _ _ le)) refl
  | inr gt ↦ rw (difference-none a b (leb→lt _ _ gt)) (omega (arith, leb→lt _ _ gt))
]

-- A pool grows where the other one falls.
offer-le : (o a b : ℕ) → b < a → o ≤ o * a / (a - b)
offer-le o a b lt = elim (Bool-cases (leb o (o * a / (a - b)))) [
  | inl le ↦ leb→le _ _ le
  | inr gt ↦ absurd (
      omega (
        arith,
        lt-div-mul (o * a) (a - b) (omega (arith, lt)),
        mul-le-mul_right {m = o * a / (a - b) + 1} {n = o} (a - b) (omega (arith, leb→lt _ _ gt)),
        mul-le-mul_left {m = a - b} {n = a} o (omega arith),
      ))
]

module _ (m : Arith) (doc : IsDocumented m) (o a y c : ℕ) (z : FitsQuote m o a y c) where
  open doc use {
    mul256_law, decimal256_sub_law, decimal256_div_law, to_decimal_law, mul_decimal_law,
    multiply_ratio_law, checked_sub_law, multiply_ratio256_law, to_uint128_law,
    decimal_from_ratio_law,
  }
  open z use {
    offer_pos, ask_pool, rate, below, product, offer_after, asked, whole, price, value, value_fits,
  }

  inverse_fits : one * one / (one - c) < u128
  inverse_fits = omega (arith, div-le_self (one * one) (one - c))

  before_eq : m.mul_decimal y (one * one / (one - c)) ≡ some (before_commission y c)
  before_eq =
      mul_decimal_law _ _
      ∙ multiply_ratio_law _ _ _
      ∙ ratio-some m.ratio_limit _ one (omega arith) asked (omega (arith, below, ask_pool))

  value_eq : m.mul_decimal (offer_for o a y c) (a * one / o) ≡ some (value_of o a y c)
  value_eq =
      mul_decimal_law _ _
      ∙ multiply_ratio_law _ _ _
      ∙ ratio-some m.ratio_limit _ one (omega arith) value value_fits

  part : before_commission y c * c / one ≤ before_commission y c
  part = div-le_of_le-mul one (
      omega
        (arith, mul-le-mul_left {m = c} {n = one} (before_commission y c) (omega (arith, rate))))

  offer_after_eq :
      m.multiply_ratio256 (o * a) 1 (a - before_commission y c)
      ≡ some (o * a / (a - before_commission y c))
  offer_after_eq =
      multiply_ratio256_law _ _ _
      ∙ quotient-some u256 _ (a - before_commission y c) (omega (arith, below))
          (omega (arith, product))
      ∙ ap (λ (n : ℕ). some (n / (a - before_commission y c))) (omega arith)

  commission_eq : m.mul_decimal (before_commission y c) c ≡ some (before_commission y c * c / one)
  commission_eq =
      mul_decimal_law _ _
      ∙ multiply_ratio_law _ _ _
      ∙ ratio-some m.ratio_limit _ one (omega arith)
          (omega (
            arith,
            mul-le-mul_left {m = c} {n = one} (before_commission y c) (omega (arith, rate)),
            mul-le-mul_right {m = before_commission y c} {n = a} one (omega (arith, below)),
            whole,
          ))
          (omega (arith, part, below, ask_pool))

  compute_offer_amount_total :
      compute_offer_amount m o a y c
      ≡ ok (
        offer_for o a y c,
        value_of o a y c - before_commission y c,
        before_commission y c * c / one,
      )
  unfolding compute_offer_amount
  compute_offer_amount_total =
      must-some _ (mul256_law o a ∙ fits-some u256 _ product)
      ∙ must-some _ (decimal256_sub_law one c ∙ difference-some one c (omega (arith, rate)))
      ∙ must-some _ (
          decimal256_div_law _ _
          ∙ quotient-some u256 _ (one - c) (omega (arith, rate)) (omega arith))
      ∙ must-some _ (to_decimal_law _ ∙ fits-some u128 _ inverse_fits)
      ∙ must-some _ before_eq
      ∙ bind-ok _ (ok_or-some _ (checked_sub_law _ _ ∙ difference-some _ _ (omega (arith, below))))
      ∙ must-some _ offer_after_eq
      ∙ must-some _ (to_uint128_law _ ∙ fits-some u128 _ offer_after)
      ∙ bind-ok _ (
          ok_or-some _ (
            checked_sub_law _ _ ∙ difference-some _ _ (offer-le o a (before_commission y c) below)))
      ∙ must-some _ before_eq
      ∙ must-some _ (
          decimal_from_ratio_law _ _
          ∙ multiply_ratio_law _ _ _
          ∙ ratio-some m.ratio_limit _ o offer_pos whole price)
      ∙ must-some _ value_eq
      ∙ must-some _ commission_eq
      ∙ ap (λ (s : ℕ). ok (offer_for o a y c, s, before_commission y c * c / one))
          (ap (λ d. unwrap_or d 0) (checked_sub_law _ _) ∙ saturated _ _)

  -- A quote is given. Where the sizes fit and the return before commission is less than the asked pool,
  -- `compute_offer_amount` answers the largest offer that does not raise the product of the pools, one
  -- unit more would; as the spread the value of the offer at the price of the pool, less the return
  -- before commission, or zero; and the commission on that return.
  pub compute_offer_amount_answered :
      (compute_offer_amount m o a y c
        ≡ ok (
          offer_for o a y c,
          value_of o a y c - before_commission y c,
          before_commission y c * c / one,
        ))
      × ((o + offer_for o a y c) * (a - before_commission y c) ≤ o * a)
      × (o * a < (o + offer_for o a y c + 1) * (a - before_commission y c))
  compute_offer_amount_answered =
      let (_, low, high, _) = compute_offer_amount_exact m doc o a y c compute_offer_amount_total in
      (compute_offer_amount_total, low, high)
