-- ===== src/Pair/Swap/Slippage.antt =====
-- What `assert_slippage_tolerance` lets through.
use prismswap_contracts.Base.{
  ℕ, ◌-◌, ◌*◌, ◌/◌, ◌≤◌, ◌<◌, ◌≡◌, ◌↔◌, refl, sym, ◌∙◌, arith, true, false, not, Bool, Bool-cases,
  inl, inr, some, ok, ◌>>=◌, bind-ok, must-some, ensure, ensure-true, ensure-eq-ok, ltb, ltb→le,
  le→ltb, ltb→lt, div-le_self, mul-le-mul, if◌then◌else◌,
}
use prismswap_contracts.Numbers.{Arith, one, u128, u256, IsDocumented}
use prismswap_contracts.Numbers.Laws.{quotient-some, difference-some}
use prismswap_contracts.Pair.Error.{ContractError, PairResult, max_slippage_assertion}
use prismswap_contracts.Pair.Swap.{price_dropped, assert_slippage_tolerance}

-- The price of a deposit of `d` for `e`, less the tolerance.
abbrev pub least_price : ℕ → ℕ → ℕ → ℕ
least_price t d e = d * one / e * (one - t) / one

not_ok : (e : ContractError) → ensure false e ≡ ok tt → ⊥
unfolding ensure
not_ok e h = absurd (cc)

passed : (e : ContractError) → ensure true e ≡ ok tt
unfolding ensure
passed e = refl

not-eq_true : (b : Bool) → not b ≡ true → b ≡ false
not-eq_true b h = ground arith

-- `||` on results: the second is not asked for where the first holds.
either_true :
    {b : Bool} (r : PairResult Bool) (k : Bool → PairResult (Unit {0}))
    → b ≡ true
    → ((if b then ok true else r) >>= k) ≡ k true
either_true r k h = rw h (bind-ok k refl)

either_false :
    {b v : Bool} (r : PairResult Bool) (k : Bool → PairResult (Unit {0}))
    → b ≡ false
    → r ≡ ok v
    → ((if b then ok true else r) >>= k) ≡ k v
either_false r k h e = rw h (bind-ok k e)

module _ (m : Arith) (doc : IsDocumented m) where
  open doc use {decimal256_from_ratio_law, decimal256_mul_law, decimal256_sub_law}

  ratio_eq : (n d : ℕ) → 0 < d → n < u128 → m.decimal256_from_ratio n d ≡ some (n * one / d)
  ratio_eq n d pos small =
      decimal256_from_ratio_law n d ∙ quotient-some u256 _ _ pos (omega (arith, small))

  price_dropped_eq :
      (t d e p q : ℕ)
      → 0 < e
      → 0 < q
      → d < u128
      → p < u128
      → price_dropped m (one - t) d e p q ≡ ok (ltb (p * one / q) (least_price t d e))
  unfolding price_dropped
  price_dropped_eq t d e p q he hq hd hp =
      let product : d * one / e * (one - t) ≤ d * one * one =
        mul-le-mul (div-le_self (d * one) e) (omega arith) in
      must-some _ (ratio_eq d e he hd)
      ∙ must-some _ (
          decimal256_mul_law (d * one / e) (one - t)
          ∙ quotient-some u256 _ one (omega arith) (omega (arith, hd, product)))
      ∙ must-some _ (ratio_eq p q hq hp)

  -- Deposits pass with a tolerance `t` of at most 1 exactly if the price of neither asset in the pool
  -- is below that of the deposits by more than the tolerance, each rounded down to 18 digits. Deposits
  -- and pools are positive 128-bit numbers.
  pub slippage_tolerance_iff :
      (t d0 d1 p0 p1 : ℕ)
      → t ≤ one
      → (0 < d0) × (d0 < u128)
      → (0 < d1) × (d1 < u128)
      → (0 < p0) × (p0 < u128)
      → (0 < p1) × (p1 < u128)
      → (assert_slippage_tolerance m (some t) (d0, d1) (p0, p1) ≡ ok tt)
        ↔ ((least_price t d0 d1 ≤ p0 * one / p1) × (least_price t d1 d0 ≤ p1 * one / p0))
  unfolding assert_slippage_tolerance
  slippage_tolerance_iff t d0 d1 p0 p1 ht (d0_pos, d0_small) (d1_pos, d1_small) (p0_pos, p0_small)
        (p1_pos, p1_small) =
      let first = price_dropped_eq t d0 d1 p0 p1 d1_pos p1_pos d0_small p0_small in
      let second = price_dropped_eq t d1 d0 p1 p0 d0_pos p0_pos d1_small p1_small in
      let opened : assert_slippage_tolerance m (some t) (d0, d1) (p0, p1) ≡ (
          (if ltb (p0 * one / p1) (least_price t d0 d1)
            then ok true
            else price_dropped m (one - t) d1 d0 p1 p0)
          >>= λ dropped. ensure (not dropped) max_slippage_assertion) =
        ensure-true _ _ (ground arith)
        ∙ must-some _ (decimal256_sub_law one t ∙ difference-some _ _ ht)
        ∙ bind-ok _ first in
      elim (Bool-cases (ltb (p0 * one / p1) (least_price t d0 d1))) [
        | inl dropped ↦
            let outcome = opened ∙ either_true _ _ dropped in
            (
              λ h. absurd (not_ok _ (sym outcome ∙ h)),
              λ bounds. absurd (omega (arith, ltb→lt _ _ dropped, bounds.0)),
            )
        | inr kept ↦
            let outcome = opened ∙ either_false _ _ kept second in
            (
              λ h. (
                ltb→le _ _ kept,
                ltb→le _ _ (not-eq_true _ (ensure-eq-ok _ _ (sym outcome ∙ h))),
              ),
              λ bounds.
                  outcome ∙ rw (le→ltb (p1 * one / p0) (least_price t d1 d0) bounds.1) (passed _),
            )
      ]
