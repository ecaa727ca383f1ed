-- ===== src/Pair/Swap/Spread.antt =====
-- When the assertions on price let a swap or a deposit pass.
use prismswap_contracts.Base.{
  ℕ, ◌+◌, ◌-◌, ◌*◌, ◌/◌, ◌≤◌, ◌<◌, ◌≡◌, ◌↔◌, ◌⊎◌, inl, inr, refl, sym, ◌∙◌, subst, Bool, true,
  false, not, Option, some, none, ok, arith, ensure, must-some, bind-ok, ltb, ltb→lt, ltb→le,
  Bool-cases, div-mul-le, lt-div-mul, div-le_self, mul-le-mul_right,
}
use prismswap_contracts.Numbers.{Arith, one, u128, u256, IsDocumented}
use prismswap_contracts.Numbers.Laws.{fits-some, quotient-some, difference-some}
use prismswap_contracts.Pair.Error.{PairResult, max_spread_assertion}
use prismswap_contracts.Pair.Swap.{assert_max_spread}

-- A quotient that was rounded down is at most `k` where the exact one is less than `k + 1`.
quotient-le_iff : (n d k : ℕ) → 0 < d → (ltb k (n / d) ≡ false) ↔ (n < (k + 1) * d)
quotient-le_iff n d k pos = (
  λ h. omega (
    arith,
    lt-div-mul n d pos,
    mul-le-mul_right {m = n / d + 1} {n = k + 1} d (omega (arith, ltb→le _ _ h)),
  ),
  λ h. elim (Bool-cases (ltb k (n / d))) [
    | inr e ↦ e
    | inl e ↦ absurd (
        omega (
          arith,
          h,
          div-mul-le n d pos,
          mul-le-mul_right {m = k + 1} {n = n / d} d (omega (arith, ltb→lt _ _ e)),
        ))
  ],
)

passes : (b : Bool) → (ensure (not b) max_spread_assertion ≡ ok tt) ↔ (b ≡ false)
unfolding ensure
passes true = (λ h. cc, λ e. cc)
passes false = (λ h. refl, λ e. refl)

iff_trans : {A B C : Type 0} → A ↔ B → B ↔ C → A ↔ C
iff_trans f g = (λ a. g.0 (f.0 a), λ c. f.1 (g.1 c))

-- What the check on the price of a swap asks of offer, return and spread.
abbrev pub IsTolerated : Option ℕ → Option ℕ → ℕ → ℕ → ℕ → Type 0
IsTolerated none none offer_amount return_amount spread_amount = Unit
IsTolerated (some price) none offer_amount return_amount spread_amount = Unit
IsTolerated none (some max) offer_amount return_amount spread_amount =
    spread_amount * one < (max + 1) * (return_amount + spread_amount)
IsTolerated (some price) (some max) offer_amount return_amount spread_amount =
    (offer_amount * one / price ≤ return_amount)
    ⊎ ((return_amount < offer_amount * one / price)
        × ((offer_amount * one / price - return_amount) * one
            < (max + 1) * (offer_amount * one / price)))

module _ (m : Arith) (doc : IsDocumented m) where
  open doc use {add256_law, sub256_law, decimal256_from_ratio_law, div_decimal256_law}

  -- Without a belief price a swap passes exactly if its spread is at most the maximum part of return
  -- and spread together, the ratio rounded down to 18 digits. Both are 128-bit numbers, and not both
  -- zero.
  pub max_spread_iff :
      (max offer_amount return_amount spread_amount : ℕ)
      → return_amount < u128
      → spread_amount < u128
      → 0 < return_amount + spread_amount
      → (assert_max_spread m none (some max) offer_amount return_amount spread_amount ≡ ok tt)
        ↔ (spread_amount * one < (max + 1) * (return_amount + spread_amount))
  unfolding assert_max_spread
  max_spread_iff max x r s hr hs pos =
      iff_trans
        (subst (λ (t : PairResult (Unit {0})). (t ≡ ok tt) ↔ (ltb max (s * one / (r + s)) ≡ false))
          (sym (
            must-some _ (add256_law r s ∙ fits-some u256 _ (omega (arith, hr, hs)))
            ∙ must-some _ (
                decimal256_from_ratio_law s (r + s)
                ∙ quotient-some u256 _ _ pos (omega (arith, hs)))))
          (passes (ltb max (s * one / (r + s)))))
        (quotient-le_iff (s * one) (r + s) max pos)

  module _ (price max x r s : ℕ) (pos : 0 < price) (hx : x < u128) where
    expected_eq : m.div_decimal256 x price ≡ some (x * one / price)
    expected_eq = div_decimal256_law x price ∙ quotient-some u256 _ _ pos (omega (arith, hx))

    expected-le : x * one / price ≤ x * one
    expected-le = div-le_self (x * one) price

    short_eq :
        ltb r (x * one / price) ≡ true
        → assert_max_spread m (some price) (some max) x r s
          ≡ ensure
              (not (ltb max ((x * one / price - r) * one / (x * one / price))))
              max_spread_assertion
    unfolding assert_max_spread
    short_eq short =
        must-some _ expected_eq
        ∙ rw short (
            must-some _ (
              sub256_law (x * one / price) r
              ∙ difference-some _ _ (omega (arith, ltb→lt _ _ short)))
            ∙ bind-ok _ (
                must-some _ (
                  decimal256_from_ratio_law (x * one / price - r) (x * one / price)
                  ∙ quotient-some u256 _ _ (omega (arith, ltb→lt _ _ short))
                      (omega (arith, hx, expected-le)))))

    enough_eq :
        ltb r (x * one / price) ≡ false → assert_max_spread m (some price) (some max) x r s ≡ ok tt
    unfolding assert_max_spread
    enough_eq enough =
        must-some _ expected_eq
        ∙ rw enough (bind-ok _ refl ∙ bind-ok _ refl ∙ (passes false).1 refl)

  -- With a belief price a swap passes exactly if the return is what the offer is worth at that price,
  -- or falls short of it by at most the maximum part.
  pub belief_price_iff :
      (price max offer_amount return_amount spread_amount : ℕ)
      → 0 < price
      → offer_amount < u128
      → (assert_max_spread m (some price) (some max) offer_amount return_amount spread_amount
          ≡ ok tt)
        ↔ ((offer_amount * one / price ≤ return_amount)
            ⊎ ((return_amount < offer_amount * one / price)
                × ((offer_amount * one / price - return_amount) * one
                    < (max + 1) * (offer_amount * one / price))))
  belief_price_iff price max x r s pos hx = elim (Bool-cases (ltb r (x * one / price))) [
    | inl short ↦
        let below = ltb→lt _ _ short in
        let exact =
          iff_trans
            (subst
              (λ (t : PairResult (Unit {0})).
                (t ≡ ok tt) ↔ (ltb max ((x * one / price - r) * one / (x * one / price)) ≡ false))
              (sym (short_eq price max x r s pos hx short)) (passes _))
            (quotient-le_iff ((x * one / price - r) * one) (x * one / price) max
              (omega (arith, below))) in
        (
          λ h. inr (below, exact.0 h),
          elim [
            | inl enough ↦ absurd (omega (arith, below, enough))
            | inr (_, within) ↦ exact.1 within
          ],
        )
    | inr enough ↦ (λ h. inl (ltb→le _ _ enough), λ h. enough_eq price max x r s pos hx enough)
  ]

  -- The check on the price of a swap, on every branch. Without a maximum spread every swap passes. With
  -- one and no belief price a swap passes exactly if its spread is at most that part of return and
  -- spread together; with a belief price, exactly if the return is what the offer is worth at that
  -- price, or falls short of it by at most that part. Ratios are rounded down to 18 digits. The
  -- amounts are 128-bit numbers, return and spread not both zero, and the belief price is not zero.
  pub assert_max_spread_iff :
      (belief_price max_spread : Option ℕ) (offer_amount return_amount spread_amount : ℕ)
      → offer_amount < u128
      → return_amount < u128
      → spread_amount < u128
      → 0 < return_amount + spread_amount
      → ((price : ℕ) → belief_price ≡ some price → 0 < price)
      → (assert_max_spread m belief_price max_spread offer_amount return_amount spread_amount
          ≡ ok tt)
        ↔ IsTolerated belief_price max_spread offer_amount return_amount spread_amount
  unfolding assert_max_spread
  assert_max_spread_iff none none x r s hx hr hs pos valid = (λ h. tt, λ u. refl)
  assert_max_spread_iff (some price) none x r s hx hr hs pos valid = (λ h. tt, λ u. refl)
  assert_max_spread_iff none (some max) x r s hx hr hs pos valid =
      max_spread_iff max x r s hr hs pos
  assert_max_spread_iff (some price) (some max) x r s hx hr hs pos valid =
      belief_price_iff price max x r s (valid price refl) hx
