-- ===== src/Market/Withdrawals.antt =====
-- A withdrawal as an operation of the abstract pool.
use prismswap_contracts.Base.{
  ℕ, ◌-◌, ◌≤◌, ◌≡◌, refl, sym, ◌∙◌, ap, arith, some, [], ◌∷◌, ok, ok-injective,
}
use prismswap_contracts.Delivery.{deliver_all, deliver_all-append, deliver_all-one}
use prismswap_contracts.Asset.{Addr, Asset, MessageInfo}
use prismswap_contracts.Messages.{Response}
use prismswap_contracts.Pair.Liquidity.{withdraw_liquidity}
use prismswap_contracts.Pair.Liquidity.Shares.{refund}
use prismswap_contracts.Pair.Liquidity.Withdraw.{Withdrawn, withdraw_liquidity-Withdrawn}
use prismswap_contracts.Market.Pool.{withdrawn, Refined}
use prismswap_contracts.Market.Ledger.{Market, asset_0, asset_1, view, IsMarket}
use prismswap_contracts.Market.Effects.{owed_self, owed_other, query_pools_eq}

module _ (k : Market) (laws : IsMarket k) where
  open k use {State, deps, config, holding, supply, deliver}
  open laws use {
    documented, stored, shares, minted, burned, transferred, two_assets, not_share_0, not_share_1,
  }

  withdraw_refines_at :
      (w w1 w' : State) (info : MessageInfo) (sender : Addr) (share : ℕ) {resp : Response}
      → supply w1 ≡ supply w
      → holding w (asset_0 k) ≤ holding w1 (asset_0 k)
      → holding w (asset_1 k) ≤ holding w1 (asset_1 k)
      → (t : Withdrawn (deps w1) info sender share resp) → t.config ≡ config
      → t.pools ≡ (
        record { info = asset_0 k; amount = holding w1 (asset_0 k) },
        record { info = asset_1 k; amount = holding w1 (asset_1 k) },
      )
      → t.total_share ≡ supply w1
      → deliver_all deliver w1 resp.messages ≡ some w'
      → Refined (view k w) (view k w')
  withdraw_refines_at w w1 w' info sender share same low_0 low_1 t config-eq pools-eq total
        delivered =
      let token = ap (λ c. c.pair_info.liquidity_token) config-eq in
      let paid_0 : Asset = record {
        info = t.pools.0.info;
        amount = refund t.pools.0.amount share t.total_share;
      } in
      let paid_1 : Asset = record {
        info = t.pools.1.info;
        amount = refund t.pools.1.amount share t.total_share;
      } in
      let (v0, d0, rest) =
        deliver_all-append deliver w1 (t.transfers.0 ∷ []) _ (rw t.sent at delivered) in
      let (v1, d1, d2) = deliver_all-append deliver v0 (t.transfers.1 ∷ []) _ rest in
      let (out_0, kept_0) =
        transferred w1 w1 v0 paid_0 sender _ t.refunded_0 (deliver_all-one deliver w1 _ d0) in
      let (out_1, kept_1) =
        transferred w1 v0 v1 paid_1 sender _ t.refunded_1 (deliver_all-one deliver v0 _ d1) in
      let (out_2, gone) =
        burned w1 v1 w' share t.burn_msg t.encoded
          (deliver_all-one deliver v1 _ (rw token at d2)) in
      let i0 : asset_0 k ≡ t.pools.0.info = ap (λ (p : Asset × Asset). p.0.info) (sym pools-eq) in
      let i1 : asset_1 k ≡ t.pools.1.info = ap (λ (p : Asset × Asset). p.1.info) (sym pools-eq) in
      let a0 : t.pools.0.amount ≡ holding w1 (asset_0 k) =
        ap (λ (p : Asset × Asset). p.0.amount) pools-eq in
      let a1 : t.pools.1.amount ≡ holding w1 (asset_1 k) =
        ap (λ (p : Asset × Asset). p.1.amount) pools-eq in
      record {
        entered = record {
          first = t.pools.0.amount;
          second = t.pools.1.amount;
          shares = t.total_share;
        };
        left = record {
          first = t.pools.0.amount - refund t.pools.0.amount share t.total_share;
          second = t.pools.1.amount - refund t.pools.1.amount share t.total_share;
          shares = supply w';
        };
        before = record {
          first = omega (arith, low_0, a0);
          second = omega (arith, low_1, a1);
          shares = total ∙ same;
        };
        acted = withdrawn share t.total_pos refl refl (omega (arith, gone, kept_0, kept_1, total));
        after = record {
          first = omega (
            arith,
            a0,
            out_0 (asset_0 k),
            out_1 (asset_0 k),
            out_2 (asset_0 k) not_share_0,
            owed_self (asset_0 k) paid_0 i0,
            owed_other (asset_0 k) paid_1 (λ c. two_assets (c ∙ sym i1)),
          );
          second = omega (
            arith,
            a1,
            out_0 (asset_1 k),
            out_1 (asset_1 k),
            out_2 (asset_1 k) not_share_1,
            owed_self (asset_1 k) paid_1 i1,
            owed_other (asset_1 k) paid_0 (λ c. two_assets (i0 ∙ sym c)),
          );
          shares = refl;
        };
      }

  pub withdraw_refines :
      (w w1 w' : State) (info : MessageInfo) (sender : Addr) (share : ℕ) {resp : Response}
      → supply w1 ≡ supply w
      → holding w (asset_0 k) ≤ holding w1 (asset_0 k)
      → holding w (asset_1 k) ≤ holding w1 (asset_1 k)
      → withdraw_liquidity (deps w1) info sender share ≡ ok resp
      → deliver_all deliver w1 resp.messages ≡ some w'
      → Refined (view k w) (view k w')
  withdraw_refines w w1 w' info sender share same low_0 low_1 h delivered =
      let t = withdraw_liquidity-Withdrawn (deps w1) (documented w1) info sender share h in
      let config-eq : t.config ≡ config = cc (t.loaded, stored w1) in
      let pools-eq = ok-injective (sym (rw config-eq at t.queried) ∙ query_pools_eq k laws w1) in
      let total = ok-injective (sym (rw config-eq at t.supply) ∙ shares w1) in
      withdraw_refines_at w w1 w' info sender share same low_0 low_1 t config-eq pools-eq total
        delivered
