-- ===== src/Pair/Trade/Traded.antt =====
-- What the handler `swap` has done where it returns a response.
use prismswap_contracts.Base.{
  ℕ, ◌+◌, ◌*◌, ◌/◌, ◌<◌, ◌≡◌, ◌≢◌, sym, ap, ◌⊎◌, inl, inr, Option, List, [], ◌∷◌, ◌++◌, ok, arith,
  unwrap_or, Bool-cases, ◌∙◌, ◌==◌, >>=-elim, must-elim, ok_or-elim, map_err-elim, ok-injective,
}
use prismswap_contracts.Numbers.{one, IsDocumented}
use prismswap_contracts.Numbers.Laws
use prismswap_contracts.Asset.{Addr, Asset, MessageInfo, asset_eq, asset_eq_iff}
use prismswap_contracts.Messages.{CosmosMsg, FeeInfoResponse, Response}
use prismswap_contracts.Querier.{query_pools, query_fee_info}
use prismswap_contracts.Pair.Swap.{compute_swap, assert_max_spread}
use prismswap_contracts.Pair.State.{Config, load, Deps}
use prismswap_contracts.Pair.Trade.{without_offer, choose_pools, pay, swap}

-- The pool that is sold to, less the offer, and the pool that is bought from.
pub record Chosen (offer_asset : Asset) (pools chosen : Asset × Asset) : Type 0 where
  pub offer_info : chosen.0.info ≡ offer_asset.info
  pub sides :
      ((pools.0.info ≡ offer_asset.info)
        × (chosen.0.amount + offer_asset.amount ≡ pools.0.amount)
        × (chosen.1 ≡ pools.1))
      ⊎ ((pools.0.info ≢ offer_asset.info)
          × (pools.1.info ≡ offer_asset.info)
          × (chosen.0.amount + offer_asset.amount ≡ pools.1.amount)
          × (chosen.1 ≡ pools.0))

-- A payment of the asset, or none where its amount is zero.
abbrev pub Paid : Deps → Asset → Addr → List CosmosMsg → Type 0
Paid deps asset receiver messages =
    ((asset.amount ≡ 0) × (messages ≡ []))
    ⊎ ((0 < asset.amount)
        × (msg : CosmosMsg) × (deps.chain.transfer_msg asset receiver ≡ ok msg)
        × (messages ≡ msg ∷ []))

pub record Traded (deps : Deps) (info : MessageInfo) (sender : Addr) (offer_asset : Asset)
    (belief_price max_spread : Option ℕ) (to : Option Addr) (resp : Response) : Type 0 where
  pub config : Config
  pub loaded : load deps.storage ≡ ok config
  pub pools : Asset × Asset
  pub queried : query_pools deps.chain config.pair_info deps.contract ≡ ok pools
  pub chosen : Asset × Asset
  pub sides : Chosen offer_asset pools chosen
  pub fee_info : FeeInfoResponse
  pub fees : query_fee_info deps.chain config.factory config.pair_info.asset_infos ≡ ok fee_info
  pub return_amount : ℕ
  pub spread_amount : ℕ
  pub commission_amount : ℕ
  pub computed :
      compute_swap deps.arith chosen.0.amount chosen.1.amount offer_asset.amount
        fee_info.fee_config.total_fee
      ≡ ok (return_amount, spread_amount, commission_amount)
  pub within_spread :
      assert_max_spread deps.arith belief_price max_spread offer_asset.amount
        (return_amount + commission_amount)
        spread_amount
      ≡ ok tt
  pub protocol_fee_amount : ℕ
  pub protocol_fee :
      protocol_fee_amount ≡ commission_amount * fee_info.fee_config.protocol_fee / one
  pub payments : List CosmosMsg × List CosmosMsg
  pub returned :
      Paid deps
        (record { info = chosen.1.info; amount = return_amount })
        (unwrap_or to sender)
        payments.0
  pub collected :
      Paid deps
        (record { info = chosen.1.info; amount = protocol_fee_amount })
        fee_info.collector
        payments.1
  pub sent : resp.messages ≡ payments.0 ++ payments.1

module _ (deps : Deps) (doc : IsDocumented deps.arith) where
  without_offer-eq-ok :
      (pool : Asset) (offer : ℕ) {rest : Asset}
      → without_offer deps.arith pool offer ≡ ok rest
      → (rest.info ≡ pool.info) × (rest.amount + offer ≡ pool.amount)
  unfolding without_offer
  without_offer-eq-ok pool offer h = ok_or-elim _ _ _ h λ amount e h.
      let p = ok-injective h in
      (
        ap (λ (a : Asset). a.info) (sym p),
        omega
            (arith, ap (λ (a : Asset). a.amount) p, Laws.checked_sub-eq-some deps.arith doc _ _ e),
      )

  choose_pools-Chosen :
      (offer_asset : Asset) (pools : Asset × Asset) {chosen : Asset × Asset}
      → choose_pools deps.arith offer_asset pools ≡ ok chosen
      → Chosen offer_asset pools chosen
  unfolding choose_pools
  choose_pools-Chosen offer_asset pools {chosen} h =
      elim (Bool-cases (asset_eq offer_asset.info pools.0.info)) [
        | inl same ↦ >>=-elim _ _ (rw (choose_pools, same) at h) λ rest e h.
            let (kept, amount) = without_offer-eq-ok pools.0 offer_asset.amount e in
            let info-eq = (asset_eq_iff offer_asset.info pools.0.info).0 same in
            let p : (rest, pools.1) ≡ chosen = ok-injective h in
            let r : rest ≡ chosen.0 = ap (λ c. c.0) p in
            record {
              offer_info = sym (ap (λ (a : Asset). a.info) r) ∙ kept ∙ sym info-eq;
              sides = inl (
                sym info-eq,
                omega (arith, amount, ap (λ (a : Asset). a.amount) r),
                ap (λ c. c.1) (sym p),
              );
            }
        | inr other ↦ elim (Bool-cases (asset_eq offer_asset.info pools.1.info)) [
          | inl same ↦ >>=-elim _ _ (rw (choose_pools, other, same) at h) λ rest e h.
              let (kept, amount) = without_offer-eq-ok pools.1 offer_asset.amount e in
              let info-eq = (asset_eq_iff offer_asset.info pools.1.info).0 same in
              let p : (rest, pools.0) ≡ chosen = ok-injective h in
              let r : rest ≡ chosen.0 = ap (λ c. c.0) p in
              record {
                offer_info = sym (ap (λ (a : Asset). a.info) r) ∙ kept ∙ sym info-eq;
                sides = inr (
                  λ e'. cc (other, (asset_eq_iff offer_asset.info pools.0.info).1 (sym e')),
                  sym info-eq,
                  omega (arith, amount, ap (λ (a : Asset). a.amount) r),
                  ap (λ c. c.1) (sym p),
                );
              }
          | inr neither ↦ absurd (cc (rw (choose_pools, other, neither) at h))
        ]
      ]

  pay-Paid :
      (asset : Asset) (receiver : Addr) {messages : List CosmosMsg}
      → pay deps asset receiver ≡ ok messages
      → Paid deps asset receiver messages
  unfolding pay
  pay-Paid asset receiver h = elim (Bool-cases (asset.amount == 0)) [
    | inl zero_amount ↦ inl (ground arith, sym (ok-injective (rw (pay, zero_amount) at h)))
    | inr some_amount ↦
        map_err-elim _ _ _ (rw (pay, some_amount) at h)
          λ msg e h. inr (ground arith, msg, e, sym (ok-injective h))
  ]

  pub swap-Traded :
      (info : MessageInfo) (sender : Addr) (offer_asset : Asset)
      (belief_price max_spread : Option ℕ) (to : Option Addr) {resp : Response}
      → swap deps info sender offer_asset belief_price max_spread to ≡ ok resp
      → Traded deps info sender offer_asset belief_price max_spread to resp
  unfolding swap
  swap-Traded info sender offer_asset belief_price max_spread to h =
      map_err-elim _ _ _ h λ sent e0 h. >>=-elim _ _ h λ config e1 h.
        map_err-elim _ _ _ h λ pools e2 h. >>=-elim _ _ h λ chosen e3 h.
          map_err-elim _ _ _ h λ fee_info e4 h. >>=-elim _ _ h λ computed e5 h.
            must-elim _ _ h λ gross e6 h. >>=-elim _ _ h λ checked e7 h.
              >>=-elim _ _ h λ returned e8 h. must-elim _ _ h λ protocol_fee_amount e9 h.
                >>=-elim _ _ h λ collected e10 h. record {
                  config = config;
                  loaded = e1;
                  pools = pools;
                  queried = e2;
                  chosen = chosen;
                  sides = choose_pools-Chosen offer_asset pools e3;
                  fee_info = fee_info;
                  fees = e4;
                  return_amount = computed.0;
                  spread_amount = computed.1;
                  commission_amount = computed.2;
                  computed = e5;
                  within_spread = rw (Laws.add128-eq-some deps.arith doc _ _ e6) at e7;
                  protocol_fee_amount = protocol_fee_amount;
                  protocol_fee = Laws.mul_decimal-eq-some deps.arith doc _ _ e9;
                  payments = (returned, collected);
                  returned = pay-Paid _ _ e8;
                  collected = pay-Paid _ _ e10;
                  sent = ap (λ (r : Response). r.messages) (sym (ok-injective h));
                }
