-- ===== src/Market/Sale.antt =====
-- A swap with its messages delivered: swap of contracts/prismswap_pair/src/contract.rs on the
-- ledgers around it.
use prismswap_contracts.Base.{
  ℕ, ◌++◌, ◌+◌, ◌-◌, ◌*◌, ◌/◌, ◌≤◌, ◌<◌, ◌≡◌, ◌≢◌, refl, ◌∙◌, arith, inl, inr, Option, some, ok,
  unwrap_or, ◌==◌, Bool-cases, div-le_of_le-mul, Bytes, mul-le-mul_left,
}
use prismswap_contracts.Numbers.{one}
use prismswap_contracts.Delivery.{deliver_all, deliver_all-both}
use prismswap_contracts.Asset.{Addr, cw20, Asset, MessageInfo, assert_sent_native_token_balance}
use prismswap_contracts.Messages.{Payload, CosmosMsg, FeeInfoResponse, Response}
use prismswap_contracts.Querier.{query_fee_info}
use prismswap_contracts.Pair.State.{load-some}
use prismswap_contracts.Pair.Swap.{assert_max_spread}
use prismswap_contracts.Pair.Swap.Inversion.{gross_return}
use prismswap_contracts.Pair.Swap.Exact.{at_price, FitsSwap, gross-le, commission-le}
use prismswap_contracts.Pair.Trade.{swap}
use prismswap_contracts.Pair.Trade.Answers.{Sells, payment, swap_answered}
use prismswap_contracts.Market.Ledger.{Market, asset_0, asset_1, share_token, IsMarket}
use prismswap_contracts.Market.Effects.{query_pools_eq, owed_self}
use prismswap_contracts.Market.Exit.{IsPaying}

module _ (k : Market) (laws : IsMarket k) {Payable : Addr → Type 0}
    {transfer : Asset → Addr → CosmosMsg} {encode : Payload → Bytes} {own_shares : k.State → ℕ}
    (pays : IsPaying k Payable transfer encode own_shares) where
  open k use {State, deps, config, holding, supply, deliver}
  open laws use {documented, stored, fees, transferred, not_share_0, not_share_1}
  open pays use {transfers, paid}

  abbrev pub pools : State → Asset × Asset
  pools w = (
    record { info = asset_0 k; amount = holding w (asset_0 k) },
    record { info = asset_1 k; amount = holding w (asset_1 k) },
  )

  -- A payment that the balance covers is delivered, and takes no more than its amount.
  payment_delivered :
      (w : State) (asset : Asset) (to : Addr)
      → Payable to
      → asset.info ≢ cw20 (share_token k)
      → asset.amount ≤ holding w asset.info
      → (w' : State) × (deliver_all deliver w (payment transfer asset to) ≡ some w')
        × (holding w asset.info ≤ holding w' asset.info + asset.amount)
        × (supply w' ≡ supply w)
  unfolding deliver_all
  payment_delivered w asset to payable other covered = elim (Bool-cases (asset.amount == 0)) [
    | inl zero_amount ↦ (w, rw (zero_amount, deliver_all) refl, omega arith, refl)
    | inr some_amount ↦
        let (w', d, own) = paid w asset to payable other (ground (arith, some_amount)) covered in
        let (out, same) = transferred w w w' asset to _ (transfers w asset to) d in
        (
          w',
          rw (some_amount, deliver_all, d, deliver_all) refl,
          omega (arith, out asset.info, owed_self asset.info asset refl),
          same,
        )
  ]

  -- Of the asked asset, what it holds: one of the two, and not the shares.
  Sells-ask :
      (w : State) (offer_asset : Asset) (before : ℕ) (ask : Asset)
      → Sells offer_asset (pools w) before ask
      → (ask.amount ≡ holding w ask.info) × (ask.info ≢ cw20 (share_token k))
  Sells-ask w offer_asset before ask (inl (e, sum, other)) =
      (rw other refl, λ h. not_share_1 (rw other at h))
  Sells-ask w offer_asset before ask (inr (ne, e, sum, other)) =
      (rw other refl, λ h. not_share_0 (rw other at h))

  -- A trade goes through. In any state of the ledgers in which the offer has come to the pair,
  -- which held at most 10^18 units of it before, where the sizes fit, the swap passes the check on
  -- its price, the factory answers and the receiver and the collector can be paid, the pair accepts
  -- it and sends the return less the commission to the receiver and the protocol's part of the
  -- commission to the collector, and both are delivered. No shares are minted or burned, and the
  -- pair keeps of the asked asset all but the return before the commission.
  pub swap_delivered :
      (w : State) (info : MessageInfo) (sender : Addr) (offer_asset : Asset)
      (belief_price max_spread : Option ℕ) (to : Option Addr) (before : ℕ) (ask : Asset)
      (fee_info : FeeInfoResponse)
      → assert_sent_native_token_balance offer_asset info ≡ ok tt
      → Sells offer_asset (pools w) before ask
      → query_fee_info (deps w).chain config.factory config.pair_info.asset_infos ≡ ok fee_info
      → FitsSwap before ask.amount offer_asset.amount fee_info.fee_config.total_fee
      → before ≤ one
      → ask.amount * one < (deps w).arith.ratio_limit
      → assert_max_spread
          (deps w).arith
          belief_price
          max_spread
          offer_asset.amount
          (gross_return before ask.amount offer_asset.amount)
          (at_price before ask.amount offer_asset.amount
            - gross_return before ask.amount offer_asset.amount)
        ≡ ok tt
      → Payable (unwrap_or to sender)
      → Payable fee_info.collector
      → (resp : Response) × (swap (deps w) info sender offer_asset belief_price max_spread to
          ≡ ok resp)
        × (let gross = gross_return before ask.amount offer_asset.amount in
            let commission = gross * fee_info.fee_config.total_fee / one in
            resp.messages
            ≡ payment transfer
                (record { info = ask.info; amount = gross - commission })
                (unwrap_or to sender)
              ++ payment transfer
                  (record {
                    info = ask.info;
                    amount = commission * fee_info.fee_config.protocol_fee / one;
                  })
                  fee_info.collector)
        × (w' : State) × (deliver_all deliver w resp.messages ≡ some w')
        × (supply w' ≡ supply w)
        × (holding w ask.info
            ≤ holding w' ask.info + gross_return before ask.amount offer_asset.amount)
  swap_delivered w info sender offer_asset belief_price max_spread to before ask fee_info sent sells
        answered fits small limit spread payable_0 payable_1 =
      let doc = documented w in
      let rate = fee_info.fee_config.total_fee in
      let gross = gross_return before ask.amount offer_asset.amount in
      let commission = gross * rate / one in
      let fee = commission * fee_info.fee_config.protocol_fee / one in
      let (resp, run, messages) =
        swap_answered (deps w) doc info sender offer_asset belief_price max_spread to config
          (pools w) before ask fee_info transfer sent (load-some (stored w))
          (query_pools_eq k laws w) sells answered fits small (fees w fee_info answered) limit
          spread (transfers w) in
      let (held, other) = Sells-ask w offer_asset before ask sells in
      let within = gross-le (deps w).arith doc before ask.amount offer_asset.amount rate fits in
      let part = commission-le (deps w).arith doc before ask.amount offer_asset.amount rate fits in
      let share : fee ≤ commission =
        div-le_of_le-mul one
          (omega (arith, mul-le-mul_left commission (fees w fee_info answered))) in
      let (v, d0, left, same) =
        payment_delivered w (record { info = ask.info; amount = gross - commission })
          (unwrap_or to sender) payable_0 other (omega (arith, within, held)) in
      let (w', d1, left', same') =
        payment_delivered v (record { info = ask.info; amount = fee }) fee_info.collector payable_1
          other (omega (arith, left, within, held, part, share)) in
      (
        resp,
        run,
        messages,
        w',
        rw messages (deliver_all-both deliver w _ _ d0 d1),
        same' ∙ same,
        omega (arith, left, left', part, share),
      )
