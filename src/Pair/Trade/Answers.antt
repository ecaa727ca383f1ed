-- ===== src/Pair/Trade/Answers.antt =====
-- When the handler `swap` returns a response.
use prismswap_contracts.Base.{
  ℕ, ◌+◌, ◌-◌, ◌*◌, ◌/◌, ◌≤◌, ◌<◌, ◌≡◌, ◌≢◌, refl, sym, ◌∙◌, ap, ◌⊎◌, inl, inr, arith, Option, some,
  List, [], ◌∷◌, ◌++◌, ok, unwrap_or, ◌==◌, if◌then◌else◌, Bool-cases, bind-ok, must-some,
  map_err-ok, ok_or, ◌>>=◌, div-mul-le, le_trans, mul-le-mul,
}
use prismswap_contracts.Numbers.{Arith, one, u128, IsDocumented}
use prismswap_contracts.Numbers.Laws.{difference-some, fits-some, ratio-some}
use prismswap_contracts.Asset.{
  Addr, Asset, MessageInfo, asset_eq_iff, asset_eq-false, assert_sent_native_token_balance,
}
use prismswap_contracts.Messages.{CosmosMsg, FeeInfoResponse, Response}
use prismswap_contracts.Querier.{query_pools, query_fee_info}
use prismswap_contracts.Pair.Swap.{assert_max_spread}
use prismswap_contracts.Pair.Swap.Inversion.{gross_return}
use prismswap_contracts.Pair.Swap.Exact.{at_price, FitsSwap, gross-le, commission-le}
use prismswap_contracts.Pair.Swap.Total.{compute_swap_total}
use prismswap_contracts.Pair.State.{Config, load, Deps}
use prismswap_contracts.Pair.Trade.{without_offer, choose_pools, pay, swap}

-- The offer is in the balance of one pool, which held `before` of it, and the other pool is `ask`.
abbrev pub Sells : (offer_asset : Asset) (pools : Asset × Asset) (before : ℕ) (ask : Asset) → Type 0
Sells offer_asset pools before ask =
    ((pools.0.info ≡ offer_asset.info)
      × (before + offer_asset.amount ≡ pools.0.amount)
      × (ask ≡ pools.1))
    ⊎ ((pools.0.info ≢ offer_asset.info)
        × (pools.1.info ≡ offer_asset.info)
        × (before + offer_asset.amount ≡ pools.1.amount)
        × (ask ≡ pools.0))

-- The messages that pay the asset: none where there is nothing to pay.
abbrev pub payment : (Asset → Addr → CosmosMsg) → Asset → Addr → List CosmosMsg
payment transfer asset to = if asset.amount == 0 then [] else transfer asset to ∷ []

module _ (m : Arith) (doc : IsDocumented m) where
  without_offer_eq :
      (pool : Asset) (offer before : ℕ)
      → before + offer ≡ pool.amount
      → without_offer m pool offer ≡ ok (record { info = pool.info; amount = before })
  unfolding without_offer ok_or ◌>>=◌
  without_offer_eq pool offer before e =
      let taken : m.checked_sub pool.amount offer ≡ some before =
        doc.checked_sub_law pool.amount offer
        ∙ difference-some _ _ (omega (arith, e))
        ∙ ap some (omega (arith, e)) in
      rw taken

  choose_pools_eq :
      (offer_asset : Asset) (pools : Asset × Asset) (before : ℕ) (ask : Asset)
      → Sells offer_asset pools before ask
      → choose_pools m offer_asset pools
        ≡ ok (record { info = offer_asset.info; amount = before }, ask)
  unfolding choose_pools
  choose_pools_eq offer_asset pools before ask (inl (same, sum, other)) =
      rw (choose_pools, (asset_eq_iff offer_asset.info pools.0.info).1 (sym same), other)
        (bind-ok _ (without_offer_eq pools.0 offer_asset.amount before sum) ∙ rw same)
  choose_pools_eq offer_asset pools before ask (inr (differs, same, sum, other)) =
      rw
        (
          choose_pools,
          asset_eq-false _ _ differs,
          (asset_eq_iff offer_asset.info pools.1.info).1 (sym same),
          other,
        )
        (bind-ok _ (without_offer_eq pools.1 offer_asset.amount before sum) ∙ rw same)

  protocol_fee_eq :
      (a commission rate : ℕ)
      → commission ≤ a
      → rate ≤ one
      → a < u128
      → a * one < m.ratio_limit
      → m.mul_decimal commission rate ≡ some (commission * rate / one)
  protocol_fee_eq a commission rate le small fits limit =
      let product = mul-le-mul le small in
      doc.mul_decimal_law commission rate
      ∙ doc.multiply_ratio_law commission rate one
      ∙ ratio-some m.ratio_limit (commission * rate) one (omega arith)
          (omega (arith, product, limit))
          (omega (arith, product, fits, div-mul-le (commission * rate) one (omega arith)))

pay_eq :
    (deps : Deps) (transfer : Asset → Addr → CosmosMsg) (asset : Asset) (to : Addr)
    → deps.chain.transfer_msg asset to ≡ ok (transfer asset to)
    → pay deps asset to ≡ ok (payment transfer asset to)
unfolding pay
pay_eq deps transfer asset to e = elim (Bool-cases (asset.amount == 0)) [
  | inl zero_amount ↦ rw (pay, zero_amount)
  | inr some_amount ↦ rw (pay, some_amount) (map_err-ok _ _ e)
]

-- A swap is answered. Where the sizes fit, the pool of the offered asset holds at most 10^18 units
-- before the offer, the offer came with the message and passes the checks on its price, the protocol
-- fee is at most the whole, and where the queries answer and the messages can be built, the response
-- pays the return less the commission to the receiver, and of the commission the protocol's part to
-- the collector.
pub swap_answered :
    (deps : Deps) (doc : IsDocumented deps.arith) (info : MessageInfo) (sender : Addr)
    (offer_asset : Asset) (belief_price max_spread : Option ℕ) (to : Option Addr) (config : Config)
    (pools : Asset × Asset) (before : ℕ) (ask : Asset) (fee_info : FeeInfoResponse)
    (transfer : Asset → Addr → CosmosMsg)
    → assert_sent_native_token_balance offer_asset info ≡ ok tt
    → load deps.storage ≡ ok config
    → query_pools deps.chain config.pair_info deps.contract ≡ ok pools
    → Sells offer_asset pools before ask
    → query_fee_info deps.chain config.factory config.pair_info.asset_infos ≡ ok fee_info
    → FitsSwap before ask.amount offer_asset.amount fee_info.fee_config.total_fee
    → before ≤ one
    → fee_info.fee_config.protocol_fee ≤ one
    → ask.amount * one < deps.arith.ratio_limit
    → assert_max_spread deps.arith belief_price max_spread offer_asset.amount
        (gross_return before ask.amount offer_asset.amount)
        (at_price before ask.amount offer_asset.amount
          - gross_return before ask.amount offer_asset.amount)
      ≡ ok tt
    → ((asset : Asset) (to : Addr) → deps.chain.transfer_msg asset to ≡ ok (transfer asset to))
    → (resp : Response) × (swap deps info sender offer_asset belief_price max_spread to ≡ ok resp)
      × (let gross = gross_return before ask.amount offer_asset.amount in
          let commission = gross * fee_info.fee_config.total_fee / one in
          resp.messages
          ≡ payment transfer
              (record { info = ask.info; amount = gross - commission })
              (unwrap_or to sender)
            ++ payment transfer
                (record {
                  info = ask.info;
                  amount = commission * fee_info.fee_config.protocol_fee / one;
                })
                fee_info.collector)
unfolding swap
swap_answered deps doc info sender offer_asset belief_price max_spread to config pools before ask
      fee_info transfer sent loaded queried sells fees fits small rate limit spread transfers =
    let m = deps.arith in
    let gross = gross_return before ask.amount offer_asset.amount in
    let commission = gross * fee_info.fee_config.total_fee / one in
    let paid =
      gross-le m doc before ask.amount offer_asset.amount fee_info.fee_config.total_fee fits in
    let part =
      commission-le m doc before ask.amount offer_asset.amount fee_info.fee_config.total_fee fits in
    let sum : m.add128 (gross - commission) commission ≡ some gross =
      doc.add128_law (gross - commission) commission
      ∙ fits-some u128 _ (omega (arith, paid, part, fits.ask_pool))
      ∙ ap some (omega (arith, part)) in
    (
      _,
      map_err-ok _ _ sent
          ∙ bind-ok _ loaded
          ∙ map_err-ok _ _ queried
          ∙ bind-ok _ (choose_pools_eq m doc offer_asset pools before ask sells)
          ∙ map_err-ok _ _ fees
          ∙ bind-ok _ (
              compute_swap_total m doc before ask.amount offer_asset.amount
                fee_info.fee_config.total_fee fits small)
          ∙ must-some _ sum
          ∙ bind-ok _ spread
          ∙ bind-ok _ (pay_eq deps transfer _ (unwrap_or to sender) (transfers _ _))
          ∙ must-some _ (
              protocol_fee_eq m doc ask.amount commission fee_info.fee_config.protocol_fee
                (le_trans part paid) rate fits.ask_pool limit)
          ∙ bind-ok _ (pay_eq deps transfer _ fee_info.collector (transfers _ _)),
      refl,
    )
