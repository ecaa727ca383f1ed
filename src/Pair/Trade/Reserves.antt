-- ===== src/Pair/Trade/Reserves.antt =====
-- The reserves of the pair across a swap, at the level of the handler.
use prismswap_contracts.Base.{
  ℕ, ◌+◌, ◌-◌, ◌*◌, ◌/◌, ◌≤◌, ◌≡◌, Option, ok, arith, div-le_of_le-mul, mul-le-mul_left, le_trans,
  inl, inr,
}
use prismswap_contracts.Numbers.{one, IsDocumented}
use prismswap_contracts.Asset.{Addr, Asset, MessageInfo}
use prismswap_contracts.Messages.{FeeInfoResponse, Response}
use prismswap_contracts.Querier.{query_pools, query_fee_info}
use prismswap_contracts.Pair.Swap.Product.{swap_product, swap_product-le}
use prismswap_contracts.Pair.State.{Config, load, Deps}
use prismswap_contracts.Pair.Trade.{swap}
use prismswap_contracts.Pair.Trade.Traded.{Traded, swap-Traded}

-- A part that is at most the whole.
part-le : (k rate : ℕ) → rate ≤ one → k * rate / one ≤ k
part-le k rate h = div-le_of_le-mul one (omega (arith, mul-le-mul_left k h))

module _ (deps : Deps) (doc : IsDocumented deps.arith) where
  -- Where a swap succeeds, with a protocol fee of at most the whole commission and balances of at most
  -- 10^18 units, the pair can pay what the response sends out, the return and the protocol fee, and
  -- the product of its reserves does not fall.
  pub swap_keeps_product :
      (info : MessageInfo) (sender : Addr) (offer_asset : Asset)
      (belief_price max_spread : Option ℕ) (to : Option Addr) {resp : Response} (config : Config)
      (pools : Asset × Asset) (fee_info : FeeInfoResponse)
      → load deps.storage ≡ ok config
      → query_pools deps.chain config.pair_info deps.contract ≡ ok pools
      → query_fee_info deps.chain config.factory config.pair_info.asset_infos ≡ ok fee_info
      → fee_info.fee_config.protocol_fee ≤ one
      → pools.0.amount ≤ one
      → pools.1.amount ≤ one
      → swap deps info sender offer_asset belief_price max_spread to ≡ ok resp
      → (t : Traded deps info sender offer_asset belief_price max_spread to resp) × (t.return_amount
            + t.protocol_fee_amount
          ≤ t.chosen.1.amount)
        × (t.chosen.0.amount * t.chosen.1.amount
            ≤ (t.chosen.0.amount + offer_asset.amount)
              * (t.chosen.1.amount - (t.return_amount + t.protocol_fee_amount)))
  swap_keeps_product info sender offer_asset belief_price max_spread to config pools fee_info loaded
        queried fees fee_le small_0 small_1 h =
      let t = swap-Traded deps doc info sender offer_asset belief_price max_spread to h in
      let config-eq : t.config ≡ config = cc (loaded, t.loaded) in
      let pools-eq : t.pools ≡ pools = cc (config-eq, queried, t.queried) in
      let fees-eq : t.fee_info ≡ fee_info = cc (config-eq, fees, t.fees) in
      let fee : t.protocol_fee_amount ≤ t.commission_amount =
        rw t.protocol_fee (part-le t.commission_amount _ (rw fees-eq fee_le)) in
      let small : t.chosen.0.amount + offer_asset.amount ≤ one = elim (t.sides.sides) [
        | inl (_, sum, _) ↦ rw (sum, pools-eq) small_0
        | inr (_, _, sum, _) ↦ rw (sum, pools-eq) small_1
      ] in
      let (paid, _) = swap_product deps.arith doc _ _ _ _ t.computed in
      let product = swap_product-le deps.arith doc _ _ _ _ small t.computed in
      (
        t,
        omega (arith, paid, fee),
        le_trans product
            (mul-le-mul_left (t.chosen.0.amount + offer_asset.amount) (omega (arith, fee))),
      )
