-- ===== src/Market/Trades.antt =====
-- A swap as an operation of the abstract pool.
use prismswap_contracts.Base.{
  ℕ, ◌+◌, ◌-◌, ◌*◌, ◌≤◌, ◌≡◌, ◌≢◌, refl, sym, ◌∙◌, ap, arith, Option, some, ok, inl, inr, unwrap_or,
  ok-injective,
}
use prismswap_contracts.Numbers.{one}
use prismswap_contracts.Delivery.{deliver_all, deliver_all-append}
use prismswap_contracts.Asset.{Addr, AssetInfo, Asset, MessageInfo}
use prismswap_contracts.Messages.{Response}
use prismswap_contracts.Pair.State.{load-some}
use prismswap_contracts.Pair.Trade.{swap}
use prismswap_contracts.Pair.Trade.Traded.{Traded, swap-Traded}
use prismswap_contracts.Pair.Trade.Reserves.{swap_keeps_product}
use prismswap_contracts.Market.Pool.{sold_first, sold_second, Refined}
use prismswap_contracts.Market.Ledger.{Market, asset_0, asset_1, view, IsMarket}
use prismswap_contracts.Market.Effects.{owed_self, owed_other, query_pools_eq, Paid-holding}

module _ (k : Market) (laws : IsMarket k) where
  open k use {State, deps, config, holding, supply}
  open laws use {documented, stored, fees, two_assets}

  -- The response of a swap takes the return and the protocol fee out of the asked asset, at most, and
  -- nothing out of the other.
  Traded-holding :
      (w w' : State) (info : MessageInfo) (sender : Addr) (offer_asset : Asset)
      (belief_price max_spread : Option ℕ) (to : Option Addr) {resp : Response}
      (t : Traded (deps w) info sender offer_asset belief_price max_spread to resp)
      (asked other : AssetInfo)
      → asked ≡ t.chosen.1.info
      → other ≢ t.chosen.1.info
      → deliver_all k.deliver w resp.messages ≡ some w'
      → (holding w asked ≤ holding w' asked + (t.return_amount + t.protocol_fee_amount))
        × (holding w other ≤ holding w' other)
        × (supply w' ≡ supply w)
  Traded-holding w w' info sender offer_asset belief_price max_spread to t asked other e ne
        delivered =
      let returned : Asset = record { info = t.chosen.1.info; amount = t.return_amount } in
      let fee : Asset = record { info = t.chosen.1.info; amount = t.protocol_fee_amount } in
      let (v, d0, d1) =
        deliver_all-append k.deliver w t.payments.0 t.payments.1 (rw t.sent at delivered) in
      let (r0, s0) =
        Paid-holding k laws w w returned (unwrap_or to sender) t.payments.0 t.returned d0 in
      let (r1, s1) = Paid-holding k laws w v fee t.fee_info.collector t.payments.1 t.collected d1 in
      (
        omega (arith, r0 asked, r1 asked, owed_self asked returned e, owed_self asked fee e),
        omega (arith, r0 other, r1 other, owed_other other returned ne, owed_other other fee ne),
        s1 ∙ s0,
      )

  module _ (w w1 w' : State) (info : MessageInfo) (sender : Addr) (offer_asset : Asset)
      (belief_price max_spread : Option ℕ) (to : Option Addr) {resp : Response}
      (same : supply w1 ≡ supply w) (low_0 : holding w (asset_0 k) ≤ holding w1 (asset_0 k))
      (low_1 : holding w (asset_1 k) ≤ holding w1 (asset_1 k))
      (offered_0 : asset_0 k ≡ offer_asset.info
        → holding w (asset_0 k) + offer_asset.amount ≤ holding w1 (asset_0 k))
      (offered_1 : asset_1 k ≡ offer_asset.info
        → holding w (asset_1 k) + offer_asset.amount ≤ holding w1 (asset_1 k))
      (delivered : deliver_all k.deliver w1 resp.messages ≡ some w') where
    Traded-Refined :
        (t : Traded (deps w1) info sender offer_asset belief_price max_spread to resp)
        → t.return_amount + t.protocol_fee_amount ≤ t.chosen.1.amount
        → t.chosen.0.amount * t.chosen.1.amount
          ≤ (t.chosen.0.amount + offer_asset.amount)
            * (t.chosen.1.amount - (t.return_amount + t.protocol_fee_amount))
        → t.pools ≡ (
          record { info = asset_0 k; amount = holding w1 (asset_0 k) },
          record { info = asset_1 k; amount = holding w1 (asset_1 k) },
        )
        → Refined (view k w) (view k w')
    Traded-Refined t paid product pools-eq = elim (t.sides.sides) [
      | inl (e, sum, rest) ↦
          let e0 : asset_0 k ≡ offer_asset.info =
            ap (λ (p : Asset × Asset). p.0.info) (sym pools-eq) ∙ e in
          let chosen-eq : t.chosen.1
              ≡ record { info = asset_1 k; amount = holding w1 (asset_1 k) } =
            rest ∙ ap (λ (p : Asset × Asset). p.1) pools-eq in
          let total = sum ∙ ap (λ (p : Asset × Asset). p.0.amount) pools-eq in
          let asked : asset_1 k ≡ t.chosen.1.info = ap (λ (a : Asset). a.info) (sym chosen-eq) in
          let amount : t.chosen.1.amount ≡ holding w1 (asset_1 k) =
            ap (λ (a : Asset). a.amount) chosen-eq in
          let (out_1, out_0, kept) =
            Traded-holding w1 w' info sender offer_asset belief_price max_spread to t (asset_1 k)
              (asset_0 k) asked (λ c. two_assets (c ∙ sym asked)) delivered in
          record {
            entered = record {
              first = t.chosen.0.amount;
              second = t.chosen.1.amount;
              shares = supply w;
            };
            left = record {
              first = t.chosen.0.amount + offer_asset.amount;
              second = t.chosen.1.amount - (t.return_amount + t.protocol_fee_amount);
              shares = supply w;
            };
            before = record {
              first = omega (arith, offered_0 e0, total);
              second = omega (arith, low_1, amount);
              shares = refl;
            };
            acted =
                sold_first offer_asset.amount (t.return_amount + t.protocol_fee_amount) paid product
                  refl refl refl;
            after = record {
              first = omega (arith, out_0, total);
              second = omega (arith, out_1, amount);
              shares = kept ∙ same;
            };
          }
      | inr (ne, e, sum, rest) ↦
          let e1 : asset_1 k ≡ offer_asset.info =
            ap (λ (p : Asset × Asset). p.1.info) (sym pools-eq) ∙ e in
          let chosen-eq : t.chosen.1
              ≡ record { info = asset_0 k; amount = holding w1 (asset_0 k) } =
            rest ∙ ap (λ (p : Asset × Asset). p.0) pools-eq in
          let total = sum ∙ ap (λ (p : Asset × Asset). p.1.amount) pools-eq in
          let asked : asset_0 k ≡ t.chosen.1.info = ap (λ (a : Asset). a.info) (sym chosen-eq) in
          let amount : t.chosen.1.amount ≡ holding w1 (asset_0 k) =
            ap (λ (a : Asset). a.amount) chosen-eq in
          let (out_0, out_1, kept) =
            Traded-holding w1 w' info sender offer_asset belief_price max_spread to t (asset_0 k)
              (asset_1 k) asked (λ c. two_assets (asked ∙ sym c)) delivered in
          record {
            entered = record {
              first = t.chosen.1.amount;
              second = t.chosen.0.amount;
              shares = supply w;
            };
            left = record {
              first = t.chosen.1.amount - (t.return_amount + t.protocol_fee_amount);
              second = t.chosen.0.amount + offer_asset.amount;
              shares = supply w;
            };
            before = record {
              first = omega (arith, low_0, amount);
              second = omega (arith, offered_1 e1, total);
              shares = refl;
            };
            acted =
                sold_second offer_asset.amount (t.return_amount + t.protocol_fee_amount) paid
                  product refl refl refl;
            after = record {
              first = omega (arith, out_0, amount);
              second = omega (arith, out_1, total);
              shares = kept ∙ same;
            };
          }
    ]

    -- A swap is a sale of one of the two assets.
    pub swap_refines :
        holding w1 (asset_0 k) ≤ one
        → holding w1 (asset_1 k) ≤ one
        → swap (deps w1) info sender offer_asset belief_price max_spread to ≡ ok resp
        → Refined (view k w) (view k w')
    swap_refines small_0 small_1 h =
        let doc = documented w1 in
        let loaded = load-some (stored w1) in
        let queried = query_pools_eq k laws w1 in
        let found =
          swap-Traded (deps w1) doc info sender offer_asset belief_price max_spread to h in
        let found-eq : found.config ≡ config = ok-injective (sym found.loaded ∙ loaded) in
        let answered = rw found-eq at found.fees in
        let (t, paid, product) =
          swap_keeps_product (deps w1) doc info sender offer_asset belief_price max_spread to config
            _ found.fee_info loaded queried answered (fees w1 found.fee_info answered) small_0
            small_1 h in
        let config-eq : t.config ≡ config = ok-injective (sym t.loaded ∙ loaded) in
        Traded-Refined t paid product (ok-injective (sym (rw config-eq at t.queried) ∙ queried))
