-- ===== src/Pair/Swap/Product.antt =====
-- The product of the two pools across `compute_swap`.
use prismswap_contracts.Base.{
  ℕ, ◌+◌, ◌-◌, ◌*◌, ◌/◌, ◌≤◌, ◌<◌, ◌≡◌, arith, ok, div-mul-le, lt-div-mul, refl, mul-le-mul_right,
  mul-le-mul_left, le_of_mul-le-mul_right, ap,
}
use prismswap_contracts.Numbers.{Arith, one, IsDocumented}
use prismswap_contracts.Pair.Swap.{compute_swap}
use prismswap_contracts.Pair.Swap.Inversion.{gross_return, compute_swap-Computed}

-- With `q` at most one below the exact quotient, a payment of `g` that leaves `q` keeps the product
-- up to one atomic of each unit of the pool.
product_step :
    (D o a n g q : ℕ)
    → q ≤ a * D
    → g * D ≤ a * D - q
    → o * a * D < q * n + n
    → o * a * D + g * D * n < a * D * n + n
product_step D o a n g q within paid near =
    omega (arith, mul-le-mul_right {m = g * D + q} {n = a * D} n (omega arith))

kept :
    (o a x g : ℕ)
    → 0 < o
    → o * a * one / (o + x) ≤ a * one
    → g ≡ gross_return o a x
    → o * a * one + g * one * (o + x) < a * one * (o + x) + (o + x)
kept o a x g p w e =
    product_step one o a (o + x) g (o * a * one / (o + x)) w (rw e (div-mul-le _ one (omega arith)))
      (lt-div-mul (o * a * one) (o + x) (omega arith))

-- No more is paid than the pool holds.
paid-le : (a q g : ℕ) → g * one ≤ a * one - q → g ≤ a
paid-le a q g h = omega arith

-- The pool that is left, as a factor.
left-mul : (a g n : ℕ) → g ≤ a → (a - g) * n + g * n ≡ a * n
left-mul a g n h = omega (arith, ap (λ (t : ℕ). t * n) {x = a - g + g} {y = a} (omega arith))

at_price-le : (x p o a g : ℕ) → p * o ≤ a * one → g * one ≤ x * p → g * o ≤ x * a
at_price-le x p o a g price paid =
    le_of_mul-le-mul_right {k = one}
      (omega (arith, mul-le-mul_right o paid, mul-le-mul_left x price)) (omega arith)

-- Two swaps of which neither lowers the product: `n` is the first pool between them.
back-le :
    (o a n x left rest g r : ℕ)
    → 0 < rest
    → n ≡ o + x
    → g ≤ n
    → left ≤ rest
    → rest + r ≤ a
    → o * a ≤ n * left
    → rest * n ≤ (rest + r) * (n - g)
    → g ≤ x
back-le o a n x left rest g r pool sum within fee whole first second =
    let o-le =
      le_of_mul-le-mul_right {m = o} {n = n - g} {k = a}
        (omega (arith, first, second, mul-le-mul_left n fee, mul-le-mul_right (n - g) whole))
        (omega arith) in
    omega arith

module _ (m : Arith) (doc : IsDocumented m) where
  -- A swap pays no more than the ask pool holds, and the product of the pools, in atomics, falls by
  -- less than the offer pool after the swap: commission aside, only rounding can lower it.
  pub swap_product :
      (o a x c : ℕ) {r s k : ℕ}
      → compute_swap m o a x c ≡ ok (r, s, k)
      → (r + k ≤ a) × (o * a * one < (o + x) * (a - (r + k)) * one + (o + x))
  swap_product o a x c {r} {s} {k} h =
      let f = compute_swap-Computed m doc o a x c r s k h in
      let paid =
        paid-le a (o * a * one / (o + x)) (r + k) (rw f.gross (div-mul-le _ one (omega arith))) in
      (
        paid,
        omega (
          arith,
          kept o a x (r + k) f.pool_pos f.within f.gross,
          left-mul a (r + k) (o + x) paid,
        ),
      )

  -- While the offer pool after the swap is at most 10^18 units, the product of the pools never falls.
  pub swap_product-le :
      (o a x c : ℕ) {r s k : ℕ}
      → o + x ≤ one
      → compute_swap m o a x c ≡ ok (r, s, k)
      → o * a ≤ (o + x) * (a - (r + k))
  swap_product-le o a x c small h = omega (arith, swap_product o a x c h)

  -- The trader gets no more than at the price of the pool before the swap, `a` for `o`: return,
  -- commission and spread together stay below it.
  pub swap_price :
      (o a x c : ℕ) {r s k : ℕ} → compute_swap m o a x c ≡ ok (r, s, k) → (r + k + s) * o ≤ x * a
  swap_price o a x c {r} {s} {k} h =
      let f = compute_swap-Computed m doc o a x c r s k h in
      at_price-le x (a * one / o) o a (r + k + s) (div-mul-le (a * one) o f.pool_pos)
        (omega (arith, f.spread, div-mul-le (x * (a * one / o)) one (omega arith)))

  -- Selling the whole return back at once gains nothing, whatever the protocol fee `f` taken out of
  -- the commission, as long as each pool holds at most 10^18 units.
  pub swap_back :
      (o a x c : ℕ) {r s k : ℕ} (f c' : ℕ) {r' s' k' : ℕ}
      → o + x ≤ one
      → a ≤ one
      → compute_swap m o a x c ≡ ok (r, s, k)
      → f ≤ k
      → compute_swap m (a - (r + f)) (o + x) r c' ≡ ok (r', s', k')
      → r' + k' ≤ x
  swap_back o a x c {r} {s} {k} f c' {r'} {s'} {k'} so sa there fee back =
      let sold = swap_product o a x c there in
      let bought = swap_product (a - (r + f)) (o + x) r c' back in
      let pool_pos =
        (compute_swap-Computed m doc (a - (r + f)) (o + x) r c' r' s' k' back).pool_pos in
      back-le o a (o + x) x (a - (r + k)) (a - (r + f)) (r' + k') r (omega arith) refl bought.0
        (omega arith) (omega arith) (swap_product-le o a x c so there)
        (swap_product-le (a - (r + f)) (o + x) r c' (omega arith) back)
