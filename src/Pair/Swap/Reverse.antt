-- ===== src/Pair/Swap/Reverse.antt =====
-- The offer that `compute_offer_amount` quotes for a return.
use prismswap_contracts.Base.{
  ℕ, ◌+◌, ◌-◌, ◌*◌, ◌/◌, ◌≤◌, ◌<◌, ◌≡◌, arith, ok, must-elim, ok_or-elim, ok-injective, div-mul-le,
  lt-div-mul, ap, sym, ◌∙◌,
}
use prismswap_contracts.Numbers.{Arith, one, IsDocumented}
use prismswap_contracts.Numbers.Laws
use prismswap_contracts.Pair.Swap.{compute_offer_amount}

-- What the pool has to pay before commission for a return of `y`.
abbrev pub before_commission : ℕ → ℕ → ℕ
before_commission y c = y * (one * one / (one - c)) / one

-- A quotient, by the two multiples of the divisor that enclose the dividend.
quotient_bounds : (n d t : ℕ) → 0 < d → t ≡ n / d → (t * d ≤ n) × (n < (t + 1) * d)
quotient_bounds n d t h e =
    (rw e (div-mul-le n d h), omega (arith, ap (λ (q : ℕ). q * d) e, lt-div-mul n d h))

record Quoted (o a y c x k : ℕ) : Type 0 where
  rate : c < one
  below : before_commission y c < a
  offer : o + x ≡ o * a / (a - before_commission y c)
  commission : k ≡ before_commission y c * c / one

module _ (m : Arith) (doc : IsDocumented m) where
  compute_offer_amount-Quoted :
      (o a y c : ℕ) {x s k : ℕ} → compute_offer_amount m o a y c ≡ ok (x, s, k) → Quoted o a y c x k
  unfolding compute_offer_amount
  compute_offer_amount-Quoted o a y c {x} {s} {k} h = must-elim _ _ h λ cp e1 h.
      must-elim _ _ h λ left e2 h. must-elim _ _ h λ inverse e3 h. must-elim _ _ h λ inverse' e4 h.
        must-elim _ _ h λ before e5 h. ok_or-elim _ _ _ h λ ask_after e6 h.
          must-elim _ _ h λ offer_after e7 h. must-elim _ _ h λ offer_after' e8 h.
            ok_or-elim _ _ _ h λ offer e9 h. must-elim _ _ h λ before' e10 h.
              must-elim _ _ h λ price e11 h. must-elim _ _ h λ value e12 h.
                must-elim _ _ h λ commission e13 h.
                  let left-eq = Laws.decimal256_sub-eq-some m doc _ _ e2 in
                  let (inverse-eq, left-pos) = Laws.decimal256_div-eq-some m doc _ _ e3 in
                  let inverse'-eq = Laws.to_decimal-eq-some m doc _ e4 in
                  let before-eq = Laws.mul_decimal-eq-some m doc _ _ e5 in
                  let ask-eq = Laws.checked_sub-eq-some m doc _ _ e6 in
                  let (offer-eq, ask-pos) = Laws.multiply_ratio256-eq-some m doc _ _ _ e7 in
                  let offer'-eq = Laws.to_uint128-eq-some m doc _ e8 in
                  let sum = Laws.checked_sub-eq-some m doc _ _ e9 in
                  let cp-eq = Laws.mul256-eq-some m doc _ _ e1 in
                  let before'-eq = Laws.mul_decimal-eq-some m doc _ _ e10 in
                  let commission-eq = Laws.mul_decimal-eq-some m doc _ _ e13 in
                  let answer = ok-injective h in
                  let left-is : left ≡ one - c = omega (arith, left-eq) in
                  let before-is : before ≡ before_commission y c =
                    before-eq
                    ∙ ap (λ (t : ℕ). y * t / one)
                        (inverse'-eq ∙ inverse-eq ∙ ap (λ (t : ℕ). one * one / t) left-is) in
                  let ask-is : ask_after ≡ a - before_commission y c =
                    omega (arith, ask-eq, before-is) in
                  let cp-is : cp * 1 ≡ o * a = omega (arith, cp-eq) in
                  let offer-is : offer_after ≡ o * a / (a - before_commission y c) =
                    offer-eq
                    ∙ ap (λ (t : ℕ). t / ask_after) cp-is
                    ∙ ap (λ (t : ℕ). o * a / t) ask-is in
                  record {
                    rate = omega (arith, left-is, left-pos);
                    below = omega (arith, ask-eq, ask-pos, before-is);
                    offer =
                        omega
                          (arith, sum, offer'-eq.0, offer-is, ap (λ (t : ℕ × ℕ × ℕ). t.0) answer);
                    commission =
                        sym (ap (λ (t : ℕ × ℕ × ℕ). t.2) answer)
                        ∙ commission-eq
                        ∙ ap (λ (t : ℕ). t * c / one) (before'-eq ∙ sym before-eq ∙ before-is);
                  }

  pub compute_offer_amount-rate :
      (o a y c : ℕ) {x s k : ℕ} → compute_offer_amount m o a y c ≡ ok (x, s, k) → c < one
  compute_offer_amount-rate o a y c h = (compute_offer_amount-Quoted o a y c h).rate

  -- Where an offer is quoted for a return, the pool keeps something of the asked asset, and the offer
  -- is the largest one that does not raise the product of the pools: one unit more would.
  pub compute_offer_amount_exact :
      (o a y c : ℕ) {x s k : ℕ}
      → compute_offer_amount m o a y c ≡ ok (x, s, k)
      → (before_commission y c < a)
        × ((o + x) * (a - before_commission y c) ≤ o * a)
        × (o * a < (o + x + 1) * (a - before_commission y c))
        × (k ≡ before_commission y c * c / one)
  compute_offer_amount_exact o a y c h =
      let q = compute_offer_amount-Quoted o a y c h in
      let (low, high) =
        quotient_bounds (o * a) (a - before_commission y c) _ (omega (arith, q.below)) q.offer in
      (q.below, low, high, q.commission)
