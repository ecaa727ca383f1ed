-- ===== src/Market/Value.antt =====
-- What shares are refunded after a series of transactions: withdraw_liquidity of
-- contracts/prismswap_pair/src/contract.rs after any calls of the pair.
use prismswap_contracts.Base.{
  ℕ, ◌+◌, ◌*◌, ◌/◌, ◌≤◌, ◌<◌, ◌≡◌, sym, ◌∙◌, arith, List, ◌∷◌, ok, ok-injective, lt-div-mul,
  mul-le-mul, mul-le-mul_left, mul-le-mul_right, mul-pos, le_of_mul-le-mul_right,
}
use prismswap_contracts.Numbers.{one}
use prismswap_contracts.Asset.{Addr, MessageInfo}
use prismswap_contracts.Messages.{CosmosMsg, Response}
use prismswap_contracts.Pair.Liquidity.{withdraw_liquidity}
use prismswap_contracts.Pair.Liquidity.Shares.{refund}
use prismswap_contracts.Pair.Liquidity.Withdraw.{withdraw_liquidity-Withdrawn}
use prismswap_contracts.Market.Ledger.{Market, asset_0, asset_1, IsMarket}
use prismswap_contracts.Market.Effects.{query_pools_eq}
use prismswap_contracts.Market.Refines.{Run, Run-supply, Run-IsWorth}

-- A refund is less than two units short of the part of the pool: `q` is the fraction in atomics, `D` of
-- them a whole, and `r` the refund.
part-covered :
    (D pool share total q r : ℕ)
    → 0 < D
    → pool ≤ D
    → share * D < q * total + total
    → pool * q < r * D + D
    → share * pool ≤ (r + 2) * total
part-covered D pool share total q r pos small fraction paid =
    le_of_mul-le-mul_right {k = D}
      (omega (
        arith,
        mul-le-mul_left {m = share * D} {n = q * total + total} pool (omega (arith, fraction)),
        mul-le-mul_right {m = pool * q} {n = r * D + D} total (omega (arith, paid)),
        mul-le-mul_right total small,
      ))
      pos

pub refund-ge :
    (pool share total : ℕ)
    → 0 < total
    → pool ≤ one
    → share * pool ≤ (refund pool share total + 2) * total
refund-ge pool share total pos small =
    part-covered one pool share total (share * one / total) (refund pool share total) (omega arith)
      small (omega (arith, lt-div-mul (share * one) total pos))
      (omega (arith, lt-div-mul (pool * (share * one / total)) one (omega arith)))

-- The two parts together, against the reserves `a` and `b` and the shares `S` of the beginning.
parts-product :
    (a b S a' b' S' s r0 r1 : ℕ)
    → 0 < S'
    → a * b * (S' * S') ≤ a' * b' * (S * S)
    → s * a' ≤ r0 * S'
    → s * b' ≤ r1 * S'
    → s * s * (a * b) ≤ r0 * r1 * (S * S)
parts-product a b S a' b' S' s r0 r1 pos worth part_0 part_1 =
    le_of_mul-le-mul_right {k = S' * S'}
      (omega
        (arith, mul-le-mul_left (s * s) worth, mul-le-mul_right (S * S) (mul-le-mul part_0 part_1)))
      (mul-pos pos pos)

module _ (k : Market) (laws : IsMarket k) where
  open k use {State, deps, config, holding, supply}
  open laws use {documented, stored, shares}

  -- Those who provide liquidity keep its worth. Whatever transactions happen, by anybody and in any
  -- order, as long as there are shares: where any of the shares are withdrawn afterwards, from
  -- balances of at most 10^18 units, the product of the two refunds, each taken two units larger for
  -- the rounding, is at least that of the parts of the balances at the beginning for which as many
  -- shares stood then.
  pub withdrawal_keeps_worth :
      {w w' : State} (info : MessageInfo) (sender : Addr) (share : ℕ) {resp : Response}
      → Run k laws w w'
      → holding w' (asset_0 k) ≤ one
      → holding w' (asset_1 k) ≤ one
      → withdraw_liquidity (deps w') info sender share ≡ ok resp
      → (refunds : ℕ × ℕ) × (transfers : CosmosMsg × CosmosMsg) × (rest : List CosmosMsg)
        × (resp.messages ≡ transfers.0 ∷ transfers.1 ∷ rest)
        × ((deps w').chain.transfer_msg (record { info = asset_0 k; amount = refunds.0 }) sender
            ≡ ok transfers.0)
        × ((deps w').chain.transfer_msg (record { info = asset_1 k; amount = refunds.1 }) sender
            ≡ ok transfers.1)
        × (share * share * (holding w (asset_0 k) * holding w (asset_1 k))
            ≤ (refunds.0 + 2) * (refunds.1 + 2) * (supply w * supply w))
  withdrawal_keeps_worth {w} {w'} info sender share run small_0 small_1 h =
      let t = withdraw_liquidity-Withdrawn (deps w') (documented w') info sender share h in
      let config-eq : t.config ≡ config = cc (t.loaded, stored w') in
      let pools-eq = ok-injective (sym (rw config-eq at t.queried) ∙ query_pools_eq k laws w') in
      let total = ok-injective (sym (rw config-eq at t.supply) ∙ shares w') in
      let pos = Run-supply k laws run in
      (
        (
          refund (holding w' (asset_0 k)) share (supply w'),
          refund (holding w' (asset_1 k)) share (supply w'),
        ),
        t.transfers,
        _,
        t.sent,
        rw (pools-eq, total) at t.refunded_0,
        rw (pools-eq, total) at t.refunded_1,
        parts-product (holding w (asset_0 k)) (holding w (asset_1 k)) (supply w)
            (holding w' (asset_0 k)) (holding w' (asset_1 k)) (supply w') share _ _ pos
            (Run-IsWorth k laws run)
            (refund-ge (holding w' (asset_0 k)) share (supply w') pos small_0)
            (refund-ge (holding w' (asset_1 k)) share (supply w') pos small_1),
      )
