-- ===== src/Pair/Liquidity/Shares.antt =====
-- The shares that `compute_share` mints and what a withdrawal pays for them, in numbers.
use prismswap_contracts.Base.{
  ℕ, ◌+◌, ◌*◌, ◌/◌, ◌≤◌, ◌<◌, ◌≡◌, Option, arith, ok, min, pos→==, >>=-elim, must-elim, div-mul-le,
  lt-div-mul, mul-le-mul_left, mul-le-mul_right, le_of_mul-le-mul_right, ◌⊎◌, inl, inr, leb, leb→le,
  leb→lt, Bool-cases, le_trans,
}
use prismswap_contracts.Numbers.{Arith, one, IsDocumented}
use prismswap_contracts.Numbers.Laws
use prismswap_contracts.Pair.Liquidity.{compute_share}

-- The larger number of shares that is worth no more than either deposit.
pub record Minted (deposits pools : ℕ × ℕ) (total share : ℕ) : Type 0 where
  pub first_covers : share * pools.0 ≤ deposits.0 * total
  pub second_covers : share * pools.1 ≤ deposits.1 * total
  pub largest :
      (deposits.0 * total < (share + 1) * pools.0) ⊎ (deposits.1 * total < (share + 1) * pools.1)

min-cases : (f s : ℕ) → ((min f s ≡ f) × (min f s ≤ s)) ⊎ ((min f s ≡ s) × (min f s ≤ f))
min-cases f s = elim (Bool-cases (leb f s)) [
  | inl le ↦ inl (omega (arith, leb→le _ _ le), omega (arith, leb→le _ _ le))
  | inr gt ↦ inr (omega (arith, leb→lt _ _ gt), omega (arith, leb→lt _ _ gt))
]

-- The smaller of two quotients rounded down.
smaller_quotient :
    (a b p q f s : ℕ)
    → f * p ≤ a
    → a < f * p + p
    → s * q ≤ b
    → b < s * q + q
    → (min f s * p ≤ a) × (min f s * q ≤ b) × ((a < (min f s + 1) * p) ⊎ (b < (min f s + 1) * q))
smaller_quotient a b p q f s f-le f-gt s-le s-gt = elim (min-cases f s) [
  | inl (e, le) ↦
      rw e (f-le, le_trans (mul-le-mul_right q (rw e at le)) s-le, inl (omega (arith, f-gt)))
  | inr (e, le) ↦
      rw e (le_trans (mul-le-mul_right p (rw e at le)) f-le, s-le, inr (omega (arith, s-gt)))
]

module _ (m : Arith) (doc : IsDocumented m) where
  pub compute_share-Minted :
      (tolerance : Option ℕ) (deposits pools : ℕ × ℕ) (total : ℕ) {share : ℕ}
      → 0 < total
      → compute_share m tolerance deposits pools total ≡ ok share
      → Minted deposits pools total share
  unfolding compute_share
  compute_share-Minted tolerance deposits pools total {share} pos h =
      >>=-elim _ _ (rw (compute_share, pos→== total pos) at h) λ checked e0 h.
        must-elim _ _ h λ f e1 h. must-elim _ _ h λ s e2 h.
          let (ef, fp, _) = Laws.multiply_ratio-eq-some m doc _ _ _ e1 in
          let (es, sp, _) = Laws.multiply_ratio-eq-some m doc _ _ _ e2 in
          let (first, second, largest) =
            smaller_quotient (deposits.0 * total) (deposits.1 * total) pools.0 pools.1 f s
              (rw ef (div-mul-le _ _ fp)) (rw ef (lt-div-mul _ _ fp)) (rw es (div-mul-le _ _ sp))
              (rw es (lt-div-mul _ _ sp)) in
          let e : min f s ≡ share = cc in
          record {
            first_covers = rw e at first;
            second_covers = rw e at second;
            largest = rw e at largest;
          }

  -- The first shares of a pool: the square root of the product of the deposits, rounded down.
  pub compute_share_first :
      (tolerance : Option ℕ) (deposits pools : ℕ × ℕ) {share : ℕ}
      → compute_share m tolerance deposits pools 0 ≡ ok share
      → (share * share ≤ deposits.0 * deposits.1)
        × (deposits.0 * deposits.1 < (share + 1) * (share + 1))
  unfolding compute_share
  compute_share_first tolerance deposits pools {share} h = must-elim _ _ h λ collateral e h.
      let root : m.integer_sqrt collateral ≡ share = cc in
      rw (root, (Laws.mul128-eq-some m doc _ _ e).0) at (doc.integer_sqrt_law collateral)

-- What a withdrawal of `share` of `total` pays from a pool: the fraction is rounded down to 18
-- digits, and then the amount.
abbrev pub refund : (pool share total : ℕ) → ℕ
refund pool share total = pool * (share * one / total) / one

pub refund-le : (pool share total : ℕ) → 0 < total → refund pool share total * total ≤ share * pool
refund-le pool share total pos =
    le_of_mul-le-mul_right {k = one}
      (omega (
        arith,
        mul-le-mul_left pool (div-mul-le (share * one) total pos),
        mul-le-mul_right total (div-mul-le (pool * (share * one / total)) one (omega arith)),
      ))
      (omega arith)

-- Shares that were minted for a deposit give back at most the deposit.
pub refund-deposit :
    (deposit pool total share : ℕ)
    → 0 < total
    → share * pool ≤ deposit * total
    → refund (pool + deposit) share (total + share) ≤ deposit
refund-deposit deposit pool total share pos covers =
    le_of_mul-le-mul_right {k = total + share}
      (omega (arith, covers, refund-le (pool + deposit) share (total + share) (omega arith)))
      (omega arith)
