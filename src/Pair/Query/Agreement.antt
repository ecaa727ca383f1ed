-- ===== src/Pair/Query/Agreement.antt =====
-- The simulation query against the swap.
use prismswap_contracts.Base.{
  ℕ, ◌+◌, ◌≡◌, ◌≢◌, sym, ◌∙◌, ap, ◌⊎◌, inl, inr, Option, ok, arith, bind-ok, map_err-ok,
}
use prismswap_contracts.Numbers.{IsDocumented}
use prismswap_contracts.Asset.{Addr, Asset, MessageInfo, asset_eq_iff, asset_eq-false}
use prismswap_contracts.Messages.{Response}
use prismswap_contracts.Querier.{query_pools, query_fee_info}
use prismswap_contracts.Pair.State.{Config, load, Deps}
use prismswap_contracts.Pair.Trade.{swap}
use prismswap_contracts.Pair.Trade.Traded.{Chosen, Traded, swap-Traded}
use prismswap_contracts.Pair.Query.{find_pools, query_simulation}

-- The balances `before` are those of `pools` less the offer.
abbrev pub LessOffer : (offer_asset : Asset) (before pools : Asset × Asset) → Type 0
LessOffer offer_asset before pools =
    ((pools.0.info ≡ offer_asset.info)
      × (before.0.info ≡ offer_asset.info)
      × (before.0.amount + offer_asset.amount ≡ pools.0.amount)
      × (before.1 ≡ pools.1))
    ⊎ ((pools.0.info ≢ offer_asset.info)
        × (before.1.info ≡ offer_asset.info)
        × (before.1.amount + offer_asset.amount ≡ pools.1.amount)
        × (before.0 ≡ pools.0))

-- Both queries look at the same two amounts.
find_pools-Chosen :
    (offer_asset : Asset) (before pools chosen : Asset × Asset)
    → LessOffer offer_asset before pools
    → Chosen offer_asset pools chosen
    → (found : Asset × Asset) × (find_pools offer_asset before ≡ ok found)
      × (found.0.amount ≡ chosen.0.amount)
      × (found.1.amount ≡ chosen.1.amount)
unfolding find_pools
find_pools-Chosen offer_asset before pools chosen (inl (e, eb, sum, same)) c = elim (c.sides) [
  | inl (_, sum', same') ↦ (
    (before.0, before.1),
    rw (find_pools, (asset_eq_iff offer_asset.info before.0.info).1 (sym eb)),
    omega (arith, sum, sum'),
    ap (λ (a : Asset). a.amount) (same ∙ sym same'),
  )
  | inr (ne, _, _, _) ↦ absurd (ne e)
]
find_pools-Chosen offer_asset before pools chosen (inr (ne, eb, sum, same)) c = elim (c.sides) [
  | inl (e', sum', same') ↦ absurd (ne e')
  | inr (_, _, sum', same') ↦ (
    (before.1, before.0),
    rw (
      find_pools,
      asset_eq-false offer_asset.info before.0.info (rw same ne),
      (asset_eq_iff offer_asset.info before.1.info).1 (sym eb),
    ),
    omega (arith, sum, sum'),
    ap (λ (a : Asset). a.amount) (same ∙ sym same'),
  )
]

module _ (deps earlier : Deps) (doc : IsDocumented deps.arith) (info : MessageInfo) (sender : Addr)
    (offer_asset : Asset) (belief_price max_spread : Option ℕ) (to : Option Addr) {resp : Response}
    (config : Config) (before pools : Asset × Asset) (arith-eq : earlier.arith ≡ deps.arith)
    (loaded_before : load earlier.storage ≡ ok config) (loaded : load deps.storage ≡ ok config)
    (queried_before : query_pools earlier.chain config.pair_info config.pair_info.contract_addr
      ≡ ok before)
    (queried : query_pools deps.chain config.pair_info deps.contract ≡ ok pools)
    (less : LessOffer offer_asset before pools)
    (fees : query_fee_info earlier.chain config.factory config.pair_info.asset_infos
      ≡ query_fee_info deps.chain config.factory config.pair_info.asset_infos) where
  pub query_simulation-Traded :
      (t : Traded deps info sender offer_asset belief_price max_spread to resp)
      → query_simulation earlier offer_asset
        ≡ ok (record {
          return_amount = t.return_amount;
          spread_amount = t.spread_amount;
          commission_amount = t.commission_amount;
        })
  unfolding query_simulation
  query_simulation-Traded t =
      let config-eq : t.config ≡ config = cc (loaded, t.loaded) in
      let pools-eq : t.pools ≡ pools = cc (config-eq, queried, t.queried) in
      let fees-eq : query_fee_info earlier.chain config.factory config.pair_info.asset_infos
          ≡ ok t.fee_info =
        fees ∙ rw config-eq at t.fees in
      let (found, find, first, second) =
        find_pools-Chosen offer_asset before pools t.chosen less (rw pools-eq at t.sides) in
      bind-ok _ loaded_before
      ∙ map_err-ok _ _ queried_before
      ∙ bind-ok _ find
      ∙ map_err-ok _ _ fees-eq
      ∙ bind-ok _ (rw (arith-eq, first, second) t.computed)

  -- A simulation that was asked for before the offered asset came in, against the same fees and by
  -- the pair's own address, gives the return, the spread and the commission that the swap then has.
  pub query_simulation-swap :
      swap deps info sender offer_asset belief_price max_spread to ≡ ok resp
      → (t : Traded deps info sender offer_asset belief_price max_spread to resp)
        × (query_simulation earlier offer_asset
            ≡ ok (record {
              return_amount = t.return_amount;
              spread_amount = t.spread_amount;
              commission_amount = t.commission_amount;
            }))
  query_simulation-swap h =
      let t = swap-Traded deps doc info sender offer_asset belief_price max_spread to h in
      (t, query_simulation-Traded t)
