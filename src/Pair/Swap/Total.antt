-- ===== src/Pair/Swap/Total.antt =====
-- A swap against a pool of at most 10^18 units of the offered asset is always answered.
use prismswap_contracts.Base.{
  ℕ, ◌+◌, ◌-◌, ◌*◌, ◌/◌, ◌≤◌, ◌<◌, ◌≡◌, arith, ok, mul-le-mul_left, mul-le-mul_right, leb, leb→le,
  leb→lt, Bool-cases, inl, inr, div-mul-le, lt-div-mul,
}
use prismswap_contracts.Numbers.{Arith, one, IsDocumented}
use prismswap_contracts.Pair.Swap.{compute_swap}
use prismswap_contracts.Pair.Swap.Inversion.{gross_return}
use prismswap_contracts.Pair.Swap.Exact.{at_price, FitsSwap, within, swap_answers}

-- `p` is the price rounded down, `q` the ask pool after the swap rounded down, `g` and `t` the two
-- sides of the spread.
spread_contradiction :
    (D o a x p q g t : ℕ)
    → o ≤ D
    → g * D + q ≤ a * D
    → o * a * D < q * (o + x) + (o + x)
    → a * D < p * o + o
    → x * p < t * D + D
    → t < g
    → ⊥
spread_contradiction D o a x p q g t small paid pool price value lt = omega (
  arith,
  pool,
  mul-le-mul_right {m = g * D + q} {n = a * D} (o + x) paid,
  mul-le-mul_left x price,
  mul-le-mul_right o value,
  mul-le-mul_right {m = t * D + D} {n = g * D} (o + x) (omega (arith, mul-le-mul_right D lt)),
  mul-le-mul_right {m = o} {n = t * D + D} x (omega arith),
)

gross-le-at_price :
    (o a x : ℕ)
    → 0 < o
    → o ≤ one
    → o * a * one / (o + x) ≤ a * one
    → gross_return o a x ≤ at_price o a x
gross-le-at_price o a x pos small within =
    elim (Bool-cases (leb (gross_return o a x) (at_price o a x))) [
      | inl le ↦ leb→le _ _ le
      | inr gt ↦ absurd (
          spread_contradiction one o a x (a * one / o) (o * a * one / (o + x)) (gross_return o a x)
            (at_price o a x) small
            (omega (arith, div-mul-le (a * one - o * a * one / (o + x)) one (omega arith)))
            (lt-div-mul (o * a * one) (o + x) (omega arith)) (lt-div-mul (a * one) o pos)
            (lt-div-mul (x * (a * one / o)) one (omega arith)) (leb→lt _ _ gt))
    ]

-- Where the sizes fit and the pool of the offered asset holds between 1 and 10^18 units, a swap is
-- answered, with the three amounts written out.
pub compute_swap_total :
    (m : Arith) (doc : IsDocumented m) (o a x c : ℕ) (z : FitsSwap o a x c)
    → o ≤ one
    → compute_swap m o a x c
      ≡ ok (
        gross_return o a x - gross_return o a x * c / one,
        at_price o a x - gross_return o a x,
        gross_return o a x * c / one,
      )
compute_swap_total m doc o a x c z small =
    swap_answers m doc o a x c z
      (gross-le-at_price o a x z.offer_pos small (within m doc o a x c z))
