-- ===== src/Market/Deposits.antt =====
-- Providing liquidity as an operation of the abstract pool.
use prismswap_contracts.Base.{
  ℕ, ◌+◌, ◌*◌, ◌≤◌, ◌<◌, ◌≡◌, ◌≢◌, refl, sym, ◌∙◌, ap, arith, Option, some, List, ◌++◌, ok, inl,
  inr, ◌⊎◌, ok-injective, Bool-cases, map_err-elim, Bytes,
}
use prismswap_contracts.Delivery.{deliver_all, deliver_all-append, deliver_all-one}
use prismswap_contracts.Asset.{
  AssetInfo, native, Asset, MessageInfo, asset_eq, asset_eq_iff, assert_sent_native_token_balance,
}
use prismswap_contracts.Messages.{Response, CosmosMsg}
use prismswap_contracts.Pair.State.{Deps, load-some}
use prismswap_contracts.Pair.Liquidity.{find_amount, provide_liquidity}
use prismswap_contracts.Pair.Liquidity.Shares.{Minted}
use prismswap_contracts.Pair.Liquidity.Provide.{Provided, Collected, provide_liquidity_fair}
use prismswap_contracts.Market.Pool.{PoolStep, founded, provided, Refined}
use prismswap_contracts.Market.Ledger.{Market, sent_coins, asset_0, asset_1, view, IsMarket}
use prismswap_contracts.Market.Effects.{sent-amount, query_pools_eq, Collected-holding}

-- Both assets of a provision passed the check on the coins that came.
provide_liquidity-sent :
    (deps : Deps) (info : MessageInfo) (assets : Asset × Asset) (tolerance : Option ℕ)
    (receiver : Option Bytes) {resp : Response}
    → provide_liquidity deps info assets tolerance receiver ≡ ok resp
    → (assert_sent_native_token_balance assets.0 info ≡ ok tt)
      × (assert_sent_native_token_balance assets.1 info ≡ ok tt)
unfolding provide_liquidity
provide_liquidity-sent deps info assets tolerance receiver h =
    map_err-elim _ _ _ h λ u e0 h. map_err-elim _ _ _ h λ v e1 h. (e0, e1)

-- The coins that came are the deposit that was found.
find_amount-sent :
    (info : MessageInfo) (assets : Asset × Asset) (i : AssetInfo) (denom : Bytes) {deposit : ℕ}
    → i ≡ native denom
    → assert_sent_native_token_balance assets.0 info ≡ ok tt
    → assert_sent_native_token_balance assets.1 info ≡ ok tt
    → find_amount assets i ≡ some deposit
    → sent_coins denom info.funds ≡ deposit
unfolding find_amount
find_amount-sent info assets i denom {deposit} e h0 h1 f =
    elim (Bool-cases (asset_eq assets.0.info i)) [
      | inl first ↦
          let found : assets.0.amount ≡ deposit = cc (rw (find_amount, first) at f) in
          sent-amount assets.0 info denom ((asset_eq_iff _ _).0 first ∙ e) h0 ∙ found
      | inr other ↦ elim (Bool-cases (asset_eq assets.1.info i)) [
        | inl second ↦
            let found : assets.1.amount ≡ deposit = cc (rw (find_amount, other, second) at f) in
            sent-amount assets.1 info denom ((asset_eq_iff _ _).0 second ∙ e) h1 ∙ found
        | inr neither ↦ absurd (cc (rw (find_amount, other, neither) at f))
      ]
    ]

-- The shares that are minted are those of the abstract pool.
fair-step :
    (deposits amounts : ℕ × ℕ) (total share : ℕ)
    → ((0 < total) × Minted deposits amounts total share)
      ⊎ ((total ≡ 0)
          × (share * share ≤ deposits.0 * deposits.1)
          × (deposits.0 * deposits.1 < (share + 1) * (share + 1)))
    → PoolStep
        (record { first = amounts.0; second = amounts.1; shares = total })
        (record {
          first = amounts.0 + deposits.0;
          second = amounts.1 + deposits.1;
          shares = total + share;
        })
fair-step deposits amounts total share (inl (pos, m)) = provided deposits share pos m refl refl refl
fair-step deposits amounts total share (inr (none_yet, low, high)) =
    let e : total + share ≡ share = omega (arith, none_yet) in
    founded deposits none_yet (rw e low) (rw e high) refl refl

module _ (k : Market) (laws : IsMarket k) where
  open k use {State, deps, config, holding, supply, deliver}
  open laws use {documented, stored, shares, minted, two_assets}

  -- The amount that the shares are computed from is at least what the pool had before the message.
  Collected-before :
      (w w1 : State) (info : MessageInfo) (pool : Asset) (deposit amount : ℕ)
      (msgs : List CosmosMsg)
      → Collected (deps w1) info pool deposit msgs amount
      → holding w pool.info ≤ holding w1 pool.info
      → pool.amount ≡ holding w1 pool.info
      → ((denom : Bytes)
          → pool.info ≡ native denom
          → holding w pool.info + deposit ≤ holding w1 pool.info)
      → holding w pool.info ≤ amount
  Collected-before w w1 info pool deposit amount msgs (inl (token, msg, ei, em, es, ea)) low now
        sent =
      omega (arith, ea, low, now)
  Collected-before w w1 info pool deposit amount msgs (inr (denom, ei, es, ea)) low now sent =
      omega (arith, ea, now, sent denom ei)

  module _ (w w1 w' : State) (info : MessageInfo) (assets : Asset × Asset) (tolerance : Option ℕ)
      (receiver : Option Bytes) {resp : Response} (foreign : info.sender ≢ (deps w1).contract)
      (same : supply w1 ≡ supply w) (low_0 : holding w (asset_0 k) ≤ holding w1 (asset_0 k))
      (low_1 : holding w (asset_1 k) ≤ holding w1 (asset_1 k))
      (came_0 : (denom : Bytes)
        → asset_0 k ≡ native denom
        → holding w (asset_0 k) + sent_coins denom info.funds ≤ holding w1 (asset_0 k))
      (came_1 : (denom : Bytes)
        → asset_1 k ≡ native denom
        → holding w (asset_1 k) + sent_coins denom info.funds ≤ holding w1 (asset_1 k))
      (h : provide_liquidity (deps w1) info assets tolerance receiver ≡ ok resp)
      (delivered : deliver_all deliver w1 resp.messages ≡ some w') where
    Provided-Refined :
        (t : Provided (deps w1) info assets tolerance receiver resp)
        → ((0 < t.total_share) × Minted t.deposits t.amounts t.total_share t.share)
          ⊎ ((t.total_share ≡ 0)
              × (t.share * t.share ≤ t.deposits.0 * t.deposits.1)
              × (t.deposits.0 * t.deposits.1 < (t.share + 1) * (t.share + 1)))
        → t.config ≡ config
        → t.pools ≡ (
          record { info = asset_0 k; amount = holding w1 (asset_0 k) },
          record { info = asset_1 k; amount = holding w1 (asset_1 k) },
        )
        → t.total_share ≡ supply w1
        → Refined (view k w) (view k w')
    Provided-Refined t fair config-eq pools-eq total =
        let token = ap (λ c. c.pair_info.liquidity_token) config-eq in
        let (sent_0, sent_1) = provide_liquidity-sent (deps w1) info assets tolerance receiver h in
        let i0 : t.pools.0.info ≡ asset_0 k = ap (λ (p : Asset × Asset). p.0.info) pools-eq in
        let i1 : t.pools.1.info ≡ asset_1 k = ap (λ (p : Asset × Asset). p.1.info) pools-eq in
        let a0 : t.pools.0.amount ≡ holding w1 t.pools.0.info =
          ap (λ (p : Asset × Asset). p.0.amount) pools-eq ∙ ap (holding w1) (sym i0) in
        let a1 : t.pools.1.amount ≡ holding w1 t.pools.1.info =
          ap (λ (p : Asset × Asset). p.1.amount) pools-eq ∙ ap (holding w1) (sym i1) in
        let before_0 : holding w (asset_0 k) ≤ t.amounts.0 = rw i0 at (
          Collected-before w w1 info t.pools.0 t.deposits.0 t.amounts.0 t.messages.0 t.collected_0
            (rw i0 low_0) a0
            (λ denom e. rw i0 (
              omega (
                arith,
                came_0 denom (sym i0 ∙ e),
                find_amount-sent info assets t.pools.0.info denom e sent_0 sent_1 t.found_0,
              )))) in
        let before_1 : holding w (asset_1 k) ≤ t.amounts.1 = rw i1 at (
          Collected-before w w1 info t.pools.1 t.deposits.1 t.amounts.1 t.messages.1 t.collected_1
            (rw i1 low_1) a1
            (λ denom e. rw i1 (
              omega (
                arith,
                came_1 denom (sym i1 ∙ e),
                find_amount-sent info assets t.pools.1.info denom e sent_0 sent_1 t.found_1,
              )))) in
        let (v1, d01, d2) =
          deliver_all-append deliver w1 (t.messages.0 ++ t.messages.1) _ (rw t.sent at delivered) in
        let (v0, d0, d1) = deliver_all-append deliver w1 t.messages.0 t.messages.1 d01 in
        let (up_0, in_0, kept_0) =
          Collected-holding k laws w1 w1 info t.pools.0 t.deposits.0 t.amounts.0 t.messages.0
            foreign t.collected_0 (omega (arith, a0)) d0 in
        let (up_1, in_1, kept_1) =
          Collected-holding k laws w1 v0 info t.pools.1 t.deposits.1 t.amounts.1 t.messages.1
            foreign t.collected_1 (omega (arith, a1, up_0 t.pools.1.info)) d1 in
        let (up_2, more) =
          minted w1 v1 w' _ t.share t.mint_msg t.encoded
            (deliver_all-one deliver v1 _ (rw token at d2)) in
        record {
          entered = record { first = t.amounts.0; second = t.amounts.1; shares = t.total_share };
          left = record {
            first = t.amounts.0 + t.deposits.0;
            second = t.amounts.1 + t.deposits.1;
            shares = t.total_share + t.share;
          };
          before = record { first = before_0; second = before_1; shares = total ∙ same };
          acted = fair-step t.deposits t.amounts t.total_share t.share fair;
          after = record {
            first = omega (arith, rw i0 at in_0, up_1 (asset_0 k), up_2 (asset_0 k));
            second = omega (arith, rw i1 at in_1, up_2 (asset_1 k));
            shares = omega (arith, more, kept_0, kept_1, total);
          };
        }

    pub provide_refines : Refined (view k w) (view k w')
    provide_refines =
        let (t, fair) =
          provide_liquidity_fair (deps w1) (documented w1) info assets tolerance receiver h in
        let config-eq : t.config ≡ config = ok-injective (sym t.loaded ∙ load-some (stored w1)) in
        let pools-eq = ok-injective (sym (rw config-eq at t.queried) ∙ query_pools_eq k laws w1) in
        let total = ok-injective (sym (rw config-eq at t.supply) ∙ shares w1) in
        Provided-Refined t fair config-eq pools-eq total
