-- ===== src/Market/Effects.antt =====
-- What the messages of a response do to the balances of the pair.
use prismswap_contracts.Base.{
  ℕ, ◌+◌, ◌≤◌, ◌≡◌, ◌≢◌, refl, sym, ◌∙◌, ap, arith, Bool-cases, inl, inr, some, List, ok, Bytes,
  Option-cases, bind-ok, some-injective,
}
use prismswap_contracts.Delivery.{deliver_all, deliver_all-one}
use prismswap_contracts.Asset.{
  Addr, AssetInfo, cw20, native, Asset, MessageInfo, asset_eq, asset_eq_iff, find_coin,
  assert_sent_native_token_balance,
}
use prismswap_contracts.Messages.{CosmosMsg}
use prismswap_contracts.Querier.{query_pools}
use prismswap_contracts.Pair.Liquidity.Provide.{Collected}
use prismswap_contracts.Pair.Trade.Traded.{Paid}
use prismswap_contracts.Market.Ledger.{Market, owed, sent_coins, asset_0, asset_1, IsMarket}

pub owed_self : (a : AssetInfo) (asset : Asset) → a ≡ asset.info → owed a asset ≡ asset.amount
owed_self a asset e = rw ((asset_eq_iff a asset.info).1 e) refl

pub owed_other : (a : AssetInfo) (asset : Asset) → a ≢ asset.info → owed a asset ≡ 0
owed_other a asset ne = elim (Bool-cases (asset_eq a asset.info)) [
  | inl same ↦ absurd (ne ((asset_eq_iff a asset.info).0 same))
  | inr other ↦ rw other refl
]

-- A native asset that was checked is as much as the coins that came.
pub sent-amount :
    (asset : Asset) (info : MessageInfo) (denom : Bytes) {u : Unit {0}}
    → asset.info ≡ native denom
    → assert_sent_native_token_balance asset info ≡ ok u
    → sent_coins denom info.funds ≡ asset.amount
unfolding assert_sent_native_token_balance
sent-amount asset info denom e h = elim (Option-cases (find_coin denom info.funds)) [
  | inl absent ↦
      rw (sent_coins, absent)
        (ground (arith, rw (assert_sent_native_token_balance, e, absent) at h))
  | inr (c, found) ↦
      rw (sent_coins, found) (ground (arith, rw (assert_sent_native_token_balance, e, found) at h))
]

module _ (k : Market) (laws : IsMarket k) where
  open k use {State, deps, config, holding, supply, deliver}
  open laws use {balances, transferred, collected}

  -- The pools that a handler sees.
  pub query_pools_eq :
      (w : State)
      → query_pools (deps w).chain config.pair_info (deps w).contract
        ≡ ok (
          record { info = asset_0 k; amount = holding w (asset_0 k) },
          record { info = asset_1 k; amount = holding w (asset_1 k) },
        )
  unfolding query_pools
  query_pools_eq w = bind-ok _ (balances w (asset_0 k)) ∙ bind-ok _ (balances w (asset_1 k))

  -- A payment takes no more than its amount, of its own asset.
  pub Paid-holding :
      (seen w : State) (asset : Asset) (to : Addr) (msgs : List CosmosMsg) {w' : State}
      → Paid (deps seen) asset to msgs
      → deliver_all deliver w msgs ≡ some w'
      → ((a : AssetInfo) → holding w a ≤ holding w' a + owed a asset) × (supply w' ≡ supply w)
  unfolding deliver_all
  Paid-holding seen w asset to msgs {w'} (inl (zero_amount, e)) h =
      let same : w ≡ w' = some-injective (rw e at h) in
      (λ a. rw same (omega arith), ap supply (sym same))
  Paid-holding seen w asset to msgs (inr (pos, msg, e, e')) h =
      transferred seen w _ asset to msg e (deliver_all-one deliver w msg (rw e' at h))

  -- A deposit that is collected is in the balance afterwards, on top of the amount before it.
  pub Collected-holding :
      (seen w : State) (info : MessageInfo) (pool : Asset) (deposit amount : ℕ)
      (msgs : List CosmosMsg) {w' : State}
      → info.sender ≢ (deps seen).contract
      → Collected (deps seen) info pool deposit msgs amount
      → pool.amount ≤ holding w pool.info
      → deliver_all deliver w msgs ≡ some w'
      → ((a : AssetInfo) → holding w a ≤ holding w' a)
        × (amount + deposit ≤ holding w' pool.info)
        × (supply w' ≡ supply w)
  unfolding deliver_all
  Collected-holding seen w info pool deposit amount msgs foreign (inl (token, msg, ei, em, es, ea))
        low h =
      let (gained, same) =
        collected seen w _ token info.sender deposit msg foreign em
          (deliver_all-one deliver w _ (rw es at h)) in
      (
        λ a. omega (arith, gained a),
        omega (
          arith,
          gained pool.info,
          owed_self pool.info (record { info = cw20 token; amount = deposit }) ei,
          low,
          ea,
        ),
        same,
      )
  Collected-holding seen w info pool deposit amount msgs {w'} foreign (inr (denom, ei, es, ea)) low
        h =
      let same : w ≡ w' = some-injective (rw es at h) in
      (λ a. rw same (omega arith), rw (sym same) (omega (arith, ea, low)), ap supply (sym same))
