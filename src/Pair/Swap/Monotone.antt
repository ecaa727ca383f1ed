-- ===== src/Pair/Swap/Monotone.antt =====
-- Two swaps of one pool, compared: `compute_swap` at a larger offer, and at a lower commission.
use prismswap_contracts.Base.{
  ℕ, ◌+◌, ◌-◌, ◌*◌, ◌/◌, ◌≤◌, ◌<◌, ◌≡◌, arith, ap, ok, div-mul-le, lt-div-mul, mul-le-mul_left,
  lt_of_mul-lt-mul_right,
}
use prismswap_contracts.Numbers.{Arith, one, IsDocumented}
use prismswap_contracts.Pair.Swap.{compute_swap}
use prismswap_contracts.Pair.Swap.Inversion.{gross_return, compute_swap-Computed}

-- A larger divisor gives no larger quotient.
div_antitone : (n d d' : ℕ) → 0 < d → d ≤ d' → n / d' ≤ n / d
div_antitone n d d' pos le =
    let below : n / d' < n / d + 1 = lt_of_mul-lt-mul_right d (
      omega (
        arith,
        mul-le-mul_left (n / d') le,
        div-mul-le n d' (omega (arith, pos, le)),
        lt-div-mul n d pos,
      )) in
    omega (arith, below)

-- A larger dividend gives no smaller one.
div_monotone : (n n' d : ℕ) → 0 < d → n ≤ n' → n / d ≤ n' / d
div_monotone n n' d pos le =
    let below : n / d < n' / d + 1 =
      lt_of_mul-lt-mul_right d (omega (arith, div-mul-le n d pos, lt-div-mul n' d pos, le)) in
    omega (arith, below)

gross_return-le : (o a x x' : ℕ) → 0 < o → x ≤ x' → gross_return o a x ≤ gross_return o a x'
gross_return-le o a x x' pos le = div_monotone _ _ one (omega arith) (
    omega
      (arith, div_antitone (o * a * one) (o + x) (o + x') (omega (arith, pos)) (omega (arith, le))))

-- What is added to a return is at least what its commission grows by: `D` is the unit of a rate.
net-le :
    (D g g' c c' k k' : ℕ)
    → 0 < D
    → g ≤ g'
    → c' ≤ c
    → c ≤ D
    → g * c < k * D + D
    → k' * D ≤ g' * c'
    → k' + g ≤ k + g'
net-le D g g' c c' k k' pos le lower rate low high =
    let split : g' * c ≡ g * c + (g' - g) * c =
      omega (arith, ap (λ (t : ℕ). t * c) {x = g'} {y = g + (g' - g)} (omega (arith, le))) in
    let below : k' < k + (g' - g) + 1 =
      lt_of_mul-lt-mul_right D (
        omega (arith, high, low, mul-le-mul_left g' lower, split, mul-le-mul_left (g' - g) rate)) in
    omega (arith, below, le)

module _ (m : Arith) (doc : IsDocumented m) where
  -- A larger offer never returns less. Of two swaps that the same pool answers, the one with no smaller
  -- an offer and no higher a commission returns no less, where the commission is at most the whole.
  pub compute_swap_monotone :
      (o a x x' c c' : ℕ) {r s k r' s' k' : ℕ}
      → c ≤ one
      → x ≤ x'
      → c' ≤ c
      → compute_swap m o a x c ≡ ok (r, s, k)
      → compute_swap m o a x' c' ≡ ok (r', s', k')
      → r ≤ r'
  compute_swap_monotone o a x x' c c' {r} {s} {k} {r'} {s'} {k'} rate larger lower h h' =
      let t = compute_swap-Computed m doc o a x c r s k h in
      let t' = compute_swap-Computed m doc o a x' c' r' s' k' h' in
      let more = gross_return-le o a x x' t.pool_pos larger in
      let low : (r + k) * c < k * one + one =
        omega (
          arith,
          ap (λ (q : ℕ). q * one) t.commission,
          lt-div-mul ((r + k) * c) one (omega arith),
        ) in
      let high : k' * one ≤ (r' + k') * c' = omega (
        arith,
        ap (λ (q : ℕ). q * one) t'.commission,
        div-mul-le ((r' + k') * c') one (omega arith),
      ) in
      let net =
        net-le one (r + k) (r' + k') c c' k k' (omega arith)
          (omega (arith, more, t.gross, t'.gross)) lower rate low high in
      omega (arith, net)
