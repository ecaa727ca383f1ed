-- ===== src/Pair/Swap/Quote.antt =====
-- A quoted offer, paid: `compute_offer_amount` and then `compute_swap`.
use prismswap_contracts.Base.{
  ℕ, ◌+◌, ◌-◌, ◌*◌, ◌/◌, ◌≤◌, ◌<◌, ◌≡◌, arith, ok, div-mul-le, lt-div-mul, mul-le-mul_left,
  mul-le-mul_right, le_of_mul-le-mul_right, lt_of_mul-lt-mul_right, refl, ap, leb, leb→le, leb→lt,
  Bool-cases, inl, inr, mul-pos,
}
use prismswap_contracts.Numbers.{Arith, one, IsDocumented}
use prismswap_contracts.Pair.Swap.{compute_swap, compute_offer_amount}
use prismswap_contracts.Pair.Swap.Inversion.{compute_swap-Computed}
use prismswap_contracts.Pair.Swap.Reverse.{
  before_commission, compute_offer_amount-rate, compute_offer_amount_exact,
}

-- `D` is the unit of a decimal, `n` the product of the pools, `w` the pool after the offer, `e` what
-- the quote keeps of the ask pool and `b` what it takes, `q` what the swap keeps in atomics, `u` what it
-- takes, and `g` the return before commission.
module _ (D w n e b q g u : ℕ) (dpos : 0 < D) (pos : 0 < w) (split : u + q ≡ (e + b) * D) where
  return-le : w * e ≤ n → n * D < q * w + w → g * D ≤ u → g ≤ b
  return-le kept pool paid =
      let enough : e * D < q + 1 =
        lt_of_mul-lt-mul_right w (omega (arith, mul-le-mul_right D kept, pool)) in
      le_of_mul-le-mul_right {k = D} (omega (arith, split, enough, paid)) dpos

  return-ge : (p : ℕ) → n < (w + 1) * e → q * w ≤ n * D → u < g * D + D → e ≤ p * w → b ≤ g + p
  return-ge p kept pool paid price = elim (Bool-cases (leb b (g + p))) [
    | inl le ↦ leb→le _ _ le
    | inr gt ↦ absurd (
        omega (
          arith,
          ap (λ (t : ℕ). t * w) split,
          mul-le-mul_right {m = n + 1} {n = (w + 1) * e} D (omega (arith, kept)),
          pool,
          mul-le-mul_right {m = u + 1} {n = g * D + D} w (omega (arith, paid)),
          mul-le-mul_right D price,
          mul-le-mul_right {m = g + p + 1} {n = b} (D * w) (omega (arith, leb→lt _ _ gt)),
          mul-pos dpos pos,
        ))
  ]

-- `d` is what the commission rate `c` leaves of one, `i` its inverse, `r` the return after commission.
module _ (D c d i y b g r k : ℕ) (left : c + d ≡ D) (dpos : 0 < d) (sum : r + k ≡ g) where
  net-le : i * d ≤ D * D → b * D ≤ y * i → g ≤ b → g * c < k * D + D → r ≤ y
  net-le inverse before le commission =
      let whole : b * d ≤ y * D =
        le_of_mul-le-mul_right {k = D}
          (omega (arith, mul-le-mul_right d before, mul-le-mul_left y inverse))
          (omega (arith, left, dpos)) in
      let short : r * D < y * D + D = omega (
        arith,
        whole,
        commission,
        mul-le-mul_right d le,
        ap (λ (t : ℕ). t * D) sum,
        ap (λ (t : ℕ). g * t) left,
      ) in
      elim (Bool-cases (leb r y)) [
        | inl e ↦ leb→le _ _ e
        | inr e ↦ absurd (
            omega
              (arith, short, mul-le-mul_right {m = y + 1} {n = r} D (omega (arith, leb→lt _ _ e))))
      ]

  net-ge :
      (p : ℕ)
      → D * D < i * d + d
      → y * i < b * D + D
      → b ≤ g + p
      → k * D ≤ g * c
      → y ≤ D
      → y ≤ r + p + 1
  net-ge p inverse before le commission small =
      let whole : y * D < b * d + 2 * d = lt_of_mul-lt-mul_right D (
        omega (
          arith,
          mul-le-mul_left {m = D * D + 1} {n = i * d + d} y (omega (arith, inverse)),
          mul-le-mul_right {m = y * i + 1} {n = b * D + D} d (omega (arith, before)),
          mul-le-mul_right d small,
          dpos,
        )) in
      let kept : b * d ≤ r * D + p * D = omega (
        arith,
        mul-le-mul_right d le,
        commission,
        ap (λ (t : ℕ). t * D) sum,
        ap (λ (t : ℕ). g * t) left,
        mul-le-mul_left {m = d} {n = D} p (omega (arith, left)),
      ) in
      elim (Bool-cases (leb y (r + p + 1))) [
        | inl e ↦ leb→le _ _ e
        | inr e ↦ absurd (
            omega (
              arith,
              whole,
              kept,
              left,
              mul-le-mul_right {m = r + p + 2} {n = y} D (omega (arith, leb→lt _ _ e)),
            ))
      ]

commission_low : (g c k : ℕ) → k ≡ g * c / one → k * one ≤ g * c
commission_low g c k e = rw e (div-mul-le (g * c) one (omega arith))

commission_high : (g c k : ℕ) → k ≡ g * c / one → g * c < k * one + one
commission_high g c k e = rw e (lt-div-mul (g * c) one (omega arith))

-- A quoted offer, paid into pools that are still the same, returns what was asked for, up to rounding:
-- never more, and less by at most one unit and the price of a unit of the offer, rounded up (`p`). At
-- most 10^18 units are asked for.
pub quote_returns :
    (m : Arith) (doc : IsDocumented m) (o a y c p : ℕ) {x s k r s' k' : ℕ}
    → compute_offer_amount m o a y c ≡ ok (x, s, k)
    → compute_swap m o a x c ≡ ok (r, s', k')
    → y ≤ one
    → a ≤ p * (o + x) + before_commission y c
    → (r ≤ y) × (y ≤ r + p + 1)
quote_returns m doc o a y c p {x} {s} {k} {r} {s'} {k'} quoted swapped small price =
    let (below, kept, next, _) = compute_offer_amount_exact m doc o a y c quoted in
    let rate = compute_offer_amount-rate m doc o a y c quoted in
    let t = compute_swap-Computed m doc o a x c r s' k' swapped in
    let w = o + x in
    let b = before_commission y c in
    let e = a - b in
    let q = o * a * one / w in
    let u = a * one - q in
    let i = one * one / (one - c) in
    let g = r + k' in
    let wpos : 0 < w = omega (arith, t.pool_pos) in
    let dpos : 0 < one - c = omega (arith, rate) in
    let split : u + q ≡ (e + b) * one = omega (arith, t.within, below) in
    let left : c + (one - c) ≡ one = omega (arith, rate) in
    let gross_low : g * one ≤ u = rw t.gross (div-mul-le u one (omega arith)) in
    let gross_high : u < g * one + one = rw t.gross (lt-div-mul u one (omega arith)) in
    let low : b ≤ g + p =
      return-ge one w (o * a) e b q g u (omega arith) wpos split p next
        (div-mul-le (o * a * one) w wpos) gross_high (omega (arith, price, below)) in
    let high : g ≤ b =
      return-le one w (o * a) e b q g u (omega arith) wpos split kept
        (lt-div-mul (o * a * one) w wpos) gross_low in
    (
      net-le one c (one - c) i y b g r k' left dpos refl (div-mul-le (one * one) (one - c) dpos)
          (div-mul-le (y * i) one (omega arith)) high (commission_high g c k' t.commission),
      net-ge one c (one - c) i y b g r k' left dpos refl p (lt-div-mul (one * one) (one - c) dpos)
          (lt-div-mul (y * i) one (omega arith)) low (commission_low g c k' t.commission) small,
    )
