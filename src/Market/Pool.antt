-- ===== src/Market/Pool.antt =====
-- The abstract pool: what a pair promises its liquidity providers, without accounts, messages and
-- queries.
use prismswap_contracts.Base.{
  ℕ, ◌+◌, ◌-◌, ◌*◌, ◌≤◌, ◌<◌, ◌≡◌, arith, ap, mul-le-mul, mul-pos, mul-le-mul_right,
  le_of_mul-le-mul_right,
}
use prismswap_contracts.Pair.Liquidity.Shares.{Minted, refund, refund-le}

pub record Pool : Type 0 where
  pub first : ℕ
  pub second : ℕ
  pub shares : ℕ

-- Reserves that were added without shares.
pub record Grown (p q : Pool) : Type 0 where
  pub first : p.first ≤ q.first
  pub second : p.second ≤ q.second
  pub shares : q.shares ≡ p.shares

-- One operation on the pool.
pub data PoolStep (p q : Pool) : Type 0 where
  -- assets were given to the pool, or shares were given up
  given : p.first ≤ q.first → p.second ≤ q.second → q.shares ≤ p.shares → PoolStep p q
  -- the first deposits, for the square root of their product in shares
  founded :
      (deposits : ℕ × ℕ)
      → p.shares ≡ 0
      → q.shares * q.shares ≤ deposits.0 * deposits.1
      → deposits.0 * deposits.1 < (q.shares + 1) * (q.shares + 1)
      → q.first ≡ p.first + deposits.0
      → q.second ≡ p.second + deposits.1
      → PoolStep p q
  provided :
      (deposits : ℕ × ℕ) (minted : ℕ)
      → 0 < p.shares
      → Minted deposits (p.first, p.second) p.shares minted
      → q.first ≡ p.first + deposits.0
      → q.second ≡ p.second + deposits.1
      → q.shares ≡ p.shares + minted
      → PoolStep p q
  withdrawn :
      (burned : ℕ)
      → 0 < p.shares
      → q.first ≡ p.first - refund p.first burned p.shares
      → q.second ≡ p.second - refund p.second burned p.shares
      → q.shares + burned ≡ p.shares
      → PoolStep p q
  sold_first :
      (offer paid : ℕ)
      → paid ≤ p.second
      → p.first * p.second ≤ (p.first + offer) * (p.second - paid)
      → q.first ≡ p.first + offer
      → q.second ≡ p.second - paid
      → q.shares ≡ p.shares
      → PoolStep p q
  sold_second :
      (offer paid : ℕ)
      → paid ≤ p.first
      → p.second * p.first ≤ (p.second + offer) * (p.first - paid)
      → q.second ≡ p.second + offer
      → q.first ≡ p.first - paid
      → q.shares ≡ p.shares
      → PoolStep p q

-- A share is worth no less than before: the product of the reserves, by the square of the number of
-- shares, does not fall.
abbrev pub IsWorth : Pool → Pool → Type 0
IsWorth p q =
    p.first * p.second * (q.shares * q.shares) ≤ q.first * q.second * (p.shares * p.shares)

-- Where the part of each reserve that a share stands for does not fall.
worth_by_parts :
    (a b s a' b' s' : ℕ) → a * s' ≤ a' * s → b * s' ≤ b' * s → a * b * (s' * s') ≤ a' * b' * (s * s)
worth_by_parts a b s a' b' s' first second = omega (arith, mul-le-mul first second)

worth_by_product : (a b a' b' s : ℕ) → a * b ≤ a' * b' → a * b * (s * s) ≤ a' * b' * (s * s)
worth_by_product a b a' b' s h = mul-le-mul_right (s * s) h

-- What is left of a reserve after `x` was paid for `n` of the shares.
left_part : (a x s s' n : ℕ) → 0 < s → s' + n ≡ s → x * s ≤ n * a → a * s' ≤ (a - x) * s
left_part a x s s' n pos sum covered =
    let part : n * a ≤ s * a = mul-le-mul_right a (omega (arith, sum)) in
    let within : x ≤ a = le_of_mul-le-mul_right {k = s} (omega (arith, covered, part)) pos in
    let left : a - x + x ≡ a = omega (arith, within) in
    omega (arith, covered, ap (λ (t : ℕ). t * s) left, ap (λ (t : ℕ). a * t) sum)

-- Deposits that cover the shares minted for them.
grown_part : (a d s n : ℕ) → n * a ≤ d * s → a * (s + n) ≤ (a + d) * s
grown_part a d s n covered = omega (arith, covered)

pub Grown-IsWorth : (p q : Pool) → Grown p q → IsWorth p q
Grown-IsWorth p q g =
    worth_by_parts p.first p.second p.shares q.first q.second q.shares
      (rw g.shares (mul-le-mul_right p.shares g.first))
      (rw g.shares (mul-le-mul_right p.shares g.second))

-- Every operation on a pool that has shares keeps their worth.
pub PoolStep-IsWorth : (p q : Pool) → 0 < p.shares → PoolStep p q → IsWorth p q
PoolStep-IsWorth p q pos (given f s n) =
    worth_by_parts p.first p.second p.shares q.first q.second q.shares (mul-le-mul f n)
      (mul-le-mul s n)
PoolStep-IsWorth p q pos (founded d none_yet low high f s) = absurd (omega (arith, pos, none_yet))
PoolStep-IsWorth p q pos (provided d n pos' m f s t) =
    worth_by_parts p.first p.second p.shares q.first q.second q.shares
      (rw (f, t) (grown_part p.first d.0 p.shares n m.first_covers))
      (rw (s, t) (grown_part p.second d.1 p.shares n m.second_covers))
PoolStep-IsWorth p q pos (withdrawn n pos' f s t) =
    worth_by_parts p.first p.second p.shares q.first q.second q.shares
      (rw f (left_part p.first _ p.shares q.shares n pos t (refund-le p.first n p.shares pos)))
      (rw s (left_part p.second _ p.shares q.shares n pos t (refund-le p.second n p.shares pos)))
PoolStep-IsWorth p q pos (sold_first x y le k f s t) =
    rw (f, s, t) (worth_by_product p.first p.second _ _ p.shares k)
PoolStep-IsWorth p q pos (sold_second x y le k s f t) =
    rw (f, s, t) (worth_by_product p.first p.second _ _ p.shares (omega (arith, k)))

pub IsWorth-trans : (p q r : Pool) → 0 < q.shares → IsWorth p q → IsWorth q r → IsWorth p r
IsWorth-trans p q r pos h k =
    le_of_mul-le-mul_right {k = q.shares * q.shares}
      (omega
        (arith, mul-le-mul_right (r.shares * r.shares) h, mul-le-mul_right (p.shares * p.shares) k))
      (mul-pos pos pos)

-- A change that is one operation of the pool, between gifts to it.
pub record Refined (p q : Pool) : Type 0 where
  pub entered : Pool
  pub left : Pool
  pub before : Grown p entered
  pub acted : PoolStep entered left
  pub after : Grown left q
