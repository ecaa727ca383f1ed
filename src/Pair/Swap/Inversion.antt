-- ===== src/Pair/Swap/Inversion.antt =====
-- What a swap that was computed has computed, in numbers.
use prismswap_contracts.Base.{ℕ, ◌+◌, ◌-◌, ◌*◌, ◌/◌, ◌≤◌, ◌<◌, ◌≡◌, arith, ok, must-elim}
use prismswap_contracts.Numbers.{Arith, one, IsDocumented}
use prismswap_contracts.Numbers.Laws
use prismswap_contracts.Pair.Swap.{compute_swap}

-- The return of a swap before commission.
abbrev pub gross_return : ℕ → ℕ → ℕ → ℕ
gross_return o a x = (a * one - o * a * one / (o + x)) / one

pub record Computed (o a x c r s k : ℕ) : Type 0 where
  pub pool_pos : 0 < o
  pub within : o * a * one / (o + x) ≤ a * one
  pub gross : r + k ≡ gross_return o a x
  pub commission : k ≡ (r + k) * c / one
  pub spread : s + (r + k) ≡ x * (a * one / o) / one

module _ (m : Arith) (d : IsDocumented m) where
  pub compute_swap-Computed :
      (o a x c r s k : ℕ) → compute_swap m o a x c ≡ ok (r, s, k) → Computed o a x c r s k
  unfolding compute_swap
  compute_swap-Computed o a x c r s k h = must-elim _ _ h λ cp e1 h. must-elim _ _ h λ ad e2 h.
      must-elim _ _ h λ pa e3 h. must-elim _ _ h λ aa e4 h. must-elim _ _ h λ ac e5 h.
        must-elim _ _ h λ g e6 h. must-elim _ _ h λ p e7 h. must-elim _ _ h λ ap e8 h.
          must-elim _ _ h λ sp e9 h. must-elim _ _ h λ co e10 h. must-elim _ _ h λ re e11 h.
            must-elim _ _ h λ r' e12 h. must-elim _ _ h λ s' e13 h. must-elim _ _ h λ k' e14 h.
              ground (
                arith,
                Laws.mul256-eq-some m d _ _ e1,
                Laws.decimal256_from_uint256-eq-some m d _ e2,
                Laws.add256-eq-some m d _ _ e3,
                Laws.decimal256_from_ratio-eq-some m d _ _ e4,
                Laws.decimal256_sub-eq-some m d _ _ e5,
                Laws.mul_decimal256-eq-some m d _ _ e6,
                Laws.decimal256_from_ratio-eq-some m d _ _ e7,
                Laws.mul_decimal256-eq-some m d _ _ e8,
                Laws.sub256-eq-some m d _ _ e9,
                Laws.mul_decimal256-eq-some m d _ _ e10,
                Laws.sub256-eq-some m d _ _ e11,
                Laws.to_uint128-eq-some m d _ e12,
                Laws.to_uint128-eq-some m d _ e13,
                Laws.to_uint128-eq-some m d _ e14,
              )
