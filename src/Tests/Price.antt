-- ===== src/Tests/Price.antt =====
-- The price functions at small amounts.
use prismswap_contracts.Base.{
  ok_or, unwrap_or, some-injective, ℕ, ◌+◌, ◌-◌, ◌*◌, ◌/◌, ◌^◌, ◌≤◌, ◌<◌, ◌≡◌, ◌↔◌, ◌⊎◌, refl, some,
  ok, panic, arith, ◌>>=◌, must, leb, if◌then◌else◌,
}
use prismswap_contracts.Numbers.{one}
use prismswap_contracts.Numbers.Reference.{reference, reference-IsDocumented}
use prismswap_contracts.Pair.Swap.Reverse.{before_commission}
use prismswap_contracts.Pair.Swap.Quote.{quote_returns}
use prismswap_contracts.Pair.Swap.Monotone.{compute_swap_monotone}
use prismswap_contracts.Pair.Swap.Offer.{compute_offer_amount_answered}
use prismswap_contracts.Pair.Swap.Slippage.{least_price, slippage_tolerance_iff}
use prismswap_contracts.Pair.Swap.{
  assert_slippage_tolerance, compute_offer_amount, compute_swap, assert_max_spread,
}
use prismswap_contracts.Pair.Swap.Inversion.{gross_return}
use prismswap_contracts.Pair.Swap.Product.{swap_product, swap_back}
use prismswap_contracts.Pair.Swap.Exact.{at_price, FitsSwap, compute_swap_exact}
use prismswap_contracts.Pair.Swap.Spread.{assert_max_spread_iff}

-- 0.3% in atomics.
abbrev rate : ℕ
rate = 3 * 10 ^ 15

sold : compute_swap reference 1000000 2000000 1000 rate ≡ ok (1993, 2, 5)
unfolding compute_swap ◌>>=◌ must
sold = refl

sold_back : compute_swap reference 1998006 1001000 1993 rate ≡ ok (995, 1, 2)
unfolding compute_swap ◌>>=◌ must
sold_back = refl

swap_product_example :
    (1993 + 5 ≤ 2000000)
    × (1000000 * 2000000 * one < (1000000 + 1000) * (2000000 - (1993 + 5)) * one + (1000000 + 1000))
swap_product_example = swap_product reference reference-IsDocumented 1000000 2000000 1000 rate sold

swap_back_example : 995 + 2 ≤ 1000
swap_back_example =
    swap_back reference reference-IsDocumented 1000000 2000000 1000 rate 1 rate (omega arith)
      (omega arith) sold (omega arith) sold_back

-- A coin of 18 decimals against one of 6.
abbrev wide_pool : ℕ
wide_pool = 1500000 * 10 ^ 18

abbrev wide_offer : ℕ
wide_offer = 100 * 10 ^ 18

wide_sizes : FitsSwap wide_pool (10 ^ 12) wide_offer rate
wide_sizes = record {
  offer_pos = omega arith;
  offer_pool = omega arith;
  ask_pool = omega arith;
  offer = omega arith;
  rate = omega arith;
  product = omega arith;
  value = omega arith;
}

-- At such a pool a swap of a hundred coins panics.
compute_swap_panics : compute_swap reference wide_pool (10 ^ 9) wide_offer rate ≡ panic
unfolding compute_swap ◌>>=◌ must
compute_swap_panics = refl

compute_swap_exact_example : compute_swap reference wide_pool (10 ^ 12) wide_offer rate ≡ (
    if leb (gross_return wide_pool (10 ^ 12) wide_offer) (at_price wide_pool (10 ^ 12) wide_offer)
    then ok (
      gross_return wide_pool (10 ^ 12) wide_offer
          - gross_return wide_pool (10 ^ 12) wide_offer * rate / one,
      at_price wide_pool (10 ^ 12) wide_offer - gross_return wide_pool (10 ^ 12) wide_offer,
      gross_return wide_pool (10 ^ 12) wide_offer * rate / one,
    )
    else panic)
compute_swap_exact_example =
    compute_swap_exact reference reference-IsDocumented wide_pool (10 ^ 12) wide_offer rate
      wide_sizes

half_positive : {price : ℕ} → some (5 * 10 ^ 17) ≡ some price → 0 < price
half_positive e = omega (arith, some-injective e)

assert_max_spread_iff_example :
    (assert_max_spread reference (some (5 * 10 ^ 17)) (some (10 ^ 16)) 1000 1998 2 ≡ ok tt) ↔ (
      (1000 * one / (5 * 10 ^ 17) ≤ 1998)
      ⊎ ((1998 < 1000 * one / (5 * 10 ^ 17))
          × ((1000 * one / (5 * 10 ^ 17) - 1998) * one
              < (10 ^ 16 + 1) * (1000 * one / (5 * 10 ^ 17)))))
assert_max_spread_iff_example =
    assert_max_spread_iff reference reference-IsDocumented (some (5 * 10 ^ 17)) (some (10 ^ 16))
      1000 1998 2 (omega arith) (omega arith) (omega arith) (omega arith)
      (λ price e. half_positive e)

quoted : compute_offer_amount reference 1000000 2000000 1000 rate ≡ ok (501, 0, 3)
unfolding compute_offer_amount ◌>>=◌ must ok_or unwrap_or
quoted = refl

compute_offer_amount_answered_example :
    (compute_offer_amount reference 1000000 2000000 1000 rate ≡ ok (501, 0, 3))
    × ((1000000 + 501) * (2000000 - before_commission 1000 rate) ≤ 1000000 * 2000000)
    × (1000000 * 2000000 < (1000000 + 501 + 1) * (2000000 - before_commission 1000 rate))
compute_offer_amount_answered_example =
    compute_offer_amount_answered reference reference-IsDocumented 1000000 2000000 1000 rate
      (record {
        offer_pos = omega arith;
        ask_pool = omega arith;
        rate = omega arith;
        below = omega arith;
        product = omega arith;
        offer_after = omega arith;
        asked = omega arith;
        whole = omega arith;
        price = omega arith;
        value = omega arith;
        value_fits = omega arith;
      })

slippage_tolerance_iff_example :
    (assert_slippage_tolerance reference (some (10 ^ 16)) (100, 200) (1000, 2000) ≡ ok tt) ↔ (
      (least_price (10 ^ 16) 100 200 ≤ 1000 * one / 2000)
      × (least_price (10 ^ 16) 200 100 ≤ 2000 * one / 1000))
slippage_tolerance_iff_example =
    slippage_tolerance_iff reference reference-IsDocumented (10 ^ 16) 100 200 1000 2000
      (omega arith) (omega arith, omega arith) (omega arith, omega arith) (omega arith, omega arith)
      (omega arith, omega arith)

-- The quoted 501, paid.
paid : compute_swap reference 1000000 2000000 501 rate ≡ ok (998, 1, 3)
unfolding compute_swap ◌>>=◌ must
paid = refl

compute_swap_monotone_example : 998 ≤ 1993
compute_swap_monotone_example =
    compute_swap_monotone reference reference-IsDocumented 1000000 2000000 501 1000 rate rate
      (omega arith) (omega arith) (omega arith) paid sold

quote_returns_example : (998 ≤ 1000) × (1000 ≤ 998 + 2 + 1)
quote_returns_example =
    quote_returns reference reference-IsDocumented 1000000 2000000 1000 rate 2 quoted paid
      (omega arith) (omega arith)
