-- ===== src/System/Fees.antt =====
-- A swap of a pair whose factory answers it: contracts/prismswap_pair/src/contract.rs with
-- contracts/prismswap_factory/src/contract.rs.
use prismswap_contracts.Base.{
  ◌+◌, ◌*◌, ◌/◌, ◌≤◌, ◌≡◌, sym, ◌∙◌, ℕ, ◌^◌, arith, Option, ok, div-mul-le, mul-le-mul_left,
}
use prismswap_contracts.Numbers.{one, IsDocumented}
use prismswap_contracts.Asset.{Addr, Asset, MessageInfo}
use prismswap_contracts.Messages.{Response}
use prismswap_contracts.Querier.{query_fee_info}
use prismswap_contracts.Pair.Swap.Inversion.{compute_swap-Computed}
use prismswap_contracts.Pair.State.{Config, load, Deps}
use prismswap_contracts.Pair.Trade.{swap}
use prismswap_contracts.Pair.Trade.Traded.{Traded, swap-Traded}
use prismswap_contracts.Factory.State.{Deps as FactoryDeps}
use prismswap_contracts.Factory.Query.{query_fee_config}
use prismswap_contracts.Factory.Execute.Invariant.{Reachable, query_fee_config-IsValid}

total_part : (gross rate k : ℕ) → rate ≤ 50 * 10 ^ 15 → k ≡ gross * rate / one → 20 * k ≤ gross
total_part gross rate k small e =
    omega (arith, e, mul-le-mul_left gross small, div-mul-le (gross * rate) one (omega arith))

protocol_part : (k rate p : ℕ) → rate ≤ 800 * 10 ^ 15 → p ≡ k * rate / one → 5 * p ≤ 4 * k
protocol_part k rate p small e =
    omega (arith, e, mul-le-mul_left k small, div-mul-le (k * rate) one (omega arith))

-- Whatever the factory's owner does, a pair that asks the factory for its fees takes at most a
-- twentieth of what a swap returns as its commission, and the collector is paid at most four fifths of
-- that. The factory's storage is one that a series of its calls can reach, and the swap succeeds.
pub swap_fees_limited :
    (deps : Deps) (doc : IsDocumented deps.arith) (factory : FactoryDeps) (info : MessageInfo)
    (sender : Addr) (offer_asset : Asset) (belief_price max_spread : Option ℕ) (to : Option Addr)
    (config : Config) {resp : Response}
    → Reachable factory.storage
    → load deps.storage ≡ ok config
    → query_fee_info deps.chain config.factory config.pair_info.asset_infos
      ≡ query_fee_config factory config.pair_info.asset_infos
    → swap deps info sender offer_asset belief_price max_spread to ≡ ok resp
    → (t : Traded deps info sender offer_asset belief_price max_spread to resp) × (20
          * t.commission_amount
        ≤ t.return_amount + t.commission_amount)
      × (5 * t.protocol_fee_amount ≤ 4 * t.commission_amount)
swap_fees_limited deps doc factory info sender offer_asset belief_price max_spread to config reached
      loaded answered h =
    let t = swap-Traded deps doc info sender offer_asset belief_price max_spread to h in
    let same : t.config ≡ config = cc (loaded, t.loaded) in
    let valid =
      query_fee_config-IsValid factory config.pair_info.asset_infos reached
        (sym answered ∙ rw same at t.fees) in
    let c = compute_swap-Computed deps.arith doc _ _ _ _ _ _ _ t.computed in
    (
      t,
      total_part (t.return_amount + t.commission_amount) _ t.commission_amount valid.total
          c.commission,
      protocol_part t.commission_amount _ t.protocol_fee_amount valid.protocol t.protocol_fee,
    )
