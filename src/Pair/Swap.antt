-- ===== src/Pair/Swap.antt =====
-- The price functions of contracts/prismswap_pair/src/contract.rs: `compute_swap`,
-- `compute_offer_amount` and the two assertions on price.
pub mod Inversion
pub mod Product
pub mod Exact
pub mod Total
pub mod Spread
pub mod Reverse
pub mod Quote
pub mod Offer
pub mod Monotone
pub mod Slippage
use prismswap_contracts.Base.{
  ℕ, Bool, true, false, Option, none, some, ok, ◌>>=◌, ◌>>◌, ensure, must, ok_or, unwrap_or, ltb,
  not, if◌then◌else◌,
}
use prismswap_contracts.Numbers.{Arith, one}
use prismswap_contracts.Asset.{generic_err}
use prismswap_contracts.Pair.Error.{
  PairResult, std, overflow_error, max_spread_assertion, max_slippage_assertion,
}

module _ (m : Arith) where
  -- The return after commission, the spread and the commission.
  unfoldable pub compute_swap : ℕ → ℕ → ℕ → ℕ → PairResult (ℕ × ℕ × ℕ)
  compute_swap offer_pool ask_pool offer_amount commission_rate = do
    cp ← must (m.mul256 offer_pool ask_pool)
    ask_decimal ← must (m.decimal256_from_uint256 ask_pool)
    pool_after ← must (m.add256 offer_pool offer_amount)
    ask_after ← must (m.decimal256_from_ratio cp pool_after)
    ask_change ← must (m.decimal256_sub ask_decimal ask_after)
    gross ← must (m.mul_decimal256 1 ask_change)
    price ← must (m.decimal256_from_ratio ask_pool offer_pool)
    at_price ← must (m.mul_decimal256 offer_amount price)
    spread_amount ← must (m.sub256 at_price gross)
    commission_amount ← must (m.mul_decimal256 gross commission_rate)
    return_amount ← must (m.sub256 gross commission_amount)
    return_amount ← must (m.to_uint128 return_amount)
    spread_amount ← must (m.to_uint128 spread_amount)
    commission_amount ← must (m.to_uint128 commission_amount)
    ok (return_amount, spread_amount, commission_amount)

  -- The offer, the spread and the commission behind a return of `ask_amount`.
  unfoldable pub compute_offer_amount : ℕ → ℕ → ℕ → ℕ → PairResult (ℕ × ℕ × ℕ)
  compute_offer_amount offer_pool ask_pool ask_amount commission_rate = do
    cp ← must (m.mul256 offer_pool ask_pool)
    one_minus_commission ← must (m.decimal256_sub one commission_rate)
    inverse ← must (m.decimal256_div one one_minus_commission)
    inv_one_minus_commission ← must (m.to_decimal inverse)
    before_commission ← must (m.mul_decimal ask_amount inv_one_minus_commission)
    ask_after ← ok_or (m.checked_sub ask_pool before_commission) overflow_error
    offer_after ← must (m.multiply_ratio256 cp 1 ask_after)
    offer_after ← must (m.to_uint128 offer_after)
    offer_amount ← ok_or (m.checked_sub offer_after offer_pool) overflow_error
    before_commission_deduction ← must (m.mul_decimal ask_amount inv_one_minus_commission)
    price ← must (m.decimal_from_ratio ask_pool offer_pool)
    at_price ← must (m.mul_decimal offer_amount price)
    let spread_amount = unwrap_or (m.checked_sub at_price before_commission_deduction) 0
    commission_amount ← must (m.mul_decimal before_commission_deduction commission_rate)
    ok (offer_amount, spread_amount, commission_amount)

  -- With a belief price the spread is measured against it, otherwise it is the one of the swap.
  unfoldable pub assert_max_spread : Option ℕ → Option ℕ → ℕ → ℕ → ℕ → PairResult (Unit {0})
  assert_max_spread (some belief_price) (some max_spread) offer_amount return_amount spread = do
    expected_return ← must (m.div_decimal256 offer_amount belief_price)
    spread_amount ←
        if ltb return_amount expected_return
        then must (m.sub256 expected_return return_amount)
        else ok 0
    exceeded ←
        if ltb return_amount expected_return
        then (must (m.decimal256_from_ratio spread_amount expected_return) >>= λ ratio.
            ok (ltb max_spread ratio))
        else ok false
    ensure (not exceeded) max_spread_assertion
  assert_max_spread none (some max_spread) offer_amount return_amount spread_amount = do
    whole ← must (m.add256 return_amount spread_amount)
    ratio ← must (m.decimal256_from_ratio spread_amount whole)
    ensure (not (ltb max_spread ratio)) max_spread_assertion
  assert_max_spread (some _) none offer_amount return_amount spread_amount = ok tt
  assert_max_spread none none offer_amount return_amount spread_amount = ok tt

  -- `from_ratio(d, e) * left > from_ratio(p, q)`.
  unfoldable pub price_dropped : ℕ → ℕ → ℕ → ℕ → ℕ → PairResult Bool
  price_dropped left d e p q = do
    offered ← must (m.decimal256_from_ratio d e)
    reduced ← must (m.decimal256_mul offered left)
    pooled ← must (m.decimal256_from_ratio p q)
    ok (ltb pooled reduced)

  -- `||` does not evaluate its right side when its left side is true.
  unfoldable pub assert_slippage_tolerance : Option ℕ → ℕ × ℕ → ℕ × ℕ → PairResult (Unit {0})
  unfolding price_dropped
  assert_slippage_tolerance none deposits pools = ok tt
  assert_slippage_tolerance (some slippage_tolerance) deposits pools = do
    ensure (not (ltb one slippage_tolerance))
        (std (generic_err "slippage_tolerance cannot bigger than 1"))
    left ← must (m.decimal256_sub one slippage_tolerance)
    first ← price_dropped left deposits.0 deposits.1 pools.0 pools.1
    dropped ← if first then ok true else price_dropped left deposits.1 deposits.0 pools.1 pools.0
    ensure (not dropped) max_slippage_assertion
