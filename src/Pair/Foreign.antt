-- ===== src/Pair/Foreign.antt =====
-- An asset that is not of the pair: `swap`, `provide_liquidity` and the simulations of
-- contracts/prismswap_pair/src/contract.rs.
use prismswap_contracts.Base.{
  ℕ, ◌≡◌, ◌≢◌, refl, sym, ◌∙◌, ap, Option, some, none, ok, err, panic, Bool-cases, inl, inr, ◌⊎◌,
  Bytes, bind-ok, bind-err, map_err-ok, must-some, must-none,
}
use prismswap_contracts.Asset.{
  AssetInfo, Asset, MessageInfo, Addr, asset_eq, asset_eq_iff, asset_eq-false,
  assert_sent_native_token_balance,
}
use prismswap_contracts.Querier.{query_pool, query_pools}
use prismswap_contracts.Pair.Error.{asset_mismatch}
use prismswap_contracts.Pair.State.{Config, load, Deps}
use prismswap_contracts.Pair.Trade.{choose_pools, swap}
use prismswap_contracts.Pair.Liquidity.{find_amount, provide_liquidity}
use prismswap_contracts.Pair.Query.{find_pools, query_simulation, query_reverse_simulation}

find_amount-other :
    (assets : Asset × Asset) (info : AssetInfo)
    → info ≢ assets.0.info
    → info ≢ assets.1.info
    → find_amount assets info ≡ none
unfolding find_amount
find_amount-other assets info first second =
    rw (find_amount, asset_eq-false _ _ first, asset_eq-false _ _ second) refl

-- One of two assets is not among those that came.
IsShort : Asset × Asset → AssetInfo → AssetInfo → Type 0
IsShort assets a b =
    (find_amount assets a ≡ none)
    ⊎ ((n : ℕ) × (find_amount assets a ≡ some n) × (find_amount assets b ≡ none))

-- Of two different assets, one is missing where the first that came is neither of them.
find_amount-foreign_first :
    (assets : Asset × Asset) (a b : AssetInfo)
    → a ≢ b
    → a ≢ assets.0.info
    → b ≢ assets.0.info
    → IsShort assets a b
unfolding find_amount IsShort
find_amount-foreign_first assets a b differ foreign_a foreign_b =
    elim (Bool-cases (asset_eq assets.1.info a)) [
      | inl same ↦
          let e = (asset_eq_iff _ _).0 same in
          inr (
            assets.1.amount,
            rw (find_amount, asset_eq-false _ _ foreign_a, same) refl,
            find_amount-other assets b foreign_b (λ h. differ (sym (h ∙ e))),
          )
      | inr other ↦ inl (rw (find_amount, asset_eq-false _ _ foreign_a, other) refl)
    ]

-- The same where the second that came is neither of them.
find_amount-foreign_second :
    (assets : Asset × Asset) (a b : AssetInfo)
    → a ≢ b
    → a ≢ assets.1.info
    → b ≢ assets.1.info
    → IsShort assets a b
unfolding find_amount IsShort
find_amount-foreign_second assets a b differ foreign_a foreign_b =
    elim (Bool-cases (asset_eq assets.0.info a)) [
      | inl same ↦
          let e = (asset_eq_iff _ _).0 same in
          inr (
            assets.0.amount,
            rw (find_amount, same) refl,
            find_amount-other assets b (λ h. differ (sym (h ∙ e))) foreign_b,
          )
      | inr other ↦ inl (rw (find_amount, other, asset_eq-false _ _ foreign_a) refl)
    ]

module _ (deps : Deps) (config : Config) (amounts : ℕ × ℕ) (loaded : load deps.storage ≡ ok config)
    (own : config.pair_info.contract_addr ≡ deps.contract)
    (held_0 : query_pool deps.chain config.pair_info.asset_infos.0 deps.contract ≡ ok amounts.0)
    (held_1 : query_pool deps.chain config.pair_info.asset_infos.1 deps.contract
      ≡ ok amounts.1) where
  queried :
      query_pools deps.chain config.pair_info deps.contract
      ≡ ok (
        record { info = config.pair_info.asset_infos.0; amount = amounts.0 },
        record { info = config.pair_info.asset_infos.1; amount = amounts.1 },
      )
  unfolding query_pools
  queried = bind-ok _ held_0 ∙ bind-ok _ held_1

  queried_own :
      query_pools deps.chain config.pair_info config.pair_info.contract_addr
      ≡ ok (
        record { info = config.pair_info.asset_infos.0; amount = amounts.0 },
        record { info = config.pair_info.asset_infos.1; amount = amounts.1 },
      )
  queried_own = ap (λ c. query_pools deps.chain config.pair_info c) own ∙ queried

  provide_liquidity-short :
      (info : MessageInfo) (assets : Asset × Asset) (tolerance : Option ℕ) (receiver : Option Bytes)
      → assert_sent_native_token_balance assets.0 info ≡ ok tt
      → assert_sent_native_token_balance assets.1 info ≡ ok tt
      → IsShort assets (config.pair_info.asset_infos.0) (config.pair_info.asset_infos.1)
      → provide_liquidity deps info assets tolerance receiver ≡ panic
  unfolding provide_liquidity IsShort
  provide_liquidity-short info assets tolerance receiver sent_0 sent_1 short =
      map_err-ok _ _ sent_0
      ∙ map_err-ok _ _ sent_1
      ∙ bind-ok _ loaded
      ∙ map_err-ok _ _ queried
      ∙ elim short [
        | inl missing ↦ must-none _ missing
        | inr (n, found, missing) ↦ must-some _ found ∙ must-none _ missing
      ]

  module _ (asset : Asset) (not_0 : config.pair_info.asset_infos.0 ≢ asset.info)
      (not_1 : config.pair_info.asset_infos.1 ≢ asset.info) where
    choose_pools-foreign :
        choose_pools deps.arith asset (
          record { info = config.pair_info.asset_infos.0; amount = amounts.0 },
          record { info = config.pair_info.asset_infos.1; amount = amounts.1 },
        )
        ≡ err asset_mismatch
    unfolding choose_pools
    choose_pools-foreign =
        rw (choose_pools, asset_eq-false _ _ not_0, asset_eq-false _ _ not_1) refl

    find_pools-foreign :
        find_pools asset (
          record { info = config.pair_info.asset_infos.0; amount = amounts.0 },
          record { info = config.pair_info.asset_infos.1; amount = amounts.1 },
        )
        ≡ err asset_mismatch
    unfolding find_pools
    find_pools-foreign = rw (find_pools, asset_eq-false _ _ not_0, asset_eq-false _ _ not_1) refl

    swap-foreign :
        (info : MessageInfo) (sender : Addr) (belief_price max_spread : Option ℕ) (to : Option Addr)
        → assert_sent_native_token_balance asset info ≡ ok tt
        → swap deps info sender asset belief_price max_spread to ≡ err asset_mismatch
    unfolding swap
    swap-foreign info sender belief_price max_spread to sent =
        map_err-ok _ _ sent
        ∙ bind-ok _ loaded
        ∙ map_err-ok _ _ queried
        ∙ bind-err _ choose_pools-foreign

    query_simulation-foreign : query_simulation deps asset ≡ err asset_mismatch
    unfolding query_simulation
    query_simulation-foreign =
        bind-ok _ loaded ∙ map_err-ok _ _ queried_own ∙ bind-err _ find_pools-foreign

    query_reverse_simulation-foreign : query_reverse_simulation deps asset ≡ err asset_mismatch
    unfolding query_reverse_simulation
    query_reverse_simulation-foreign =
        bind-ok _ loaded ∙ map_err-ok _ _ queried_own ∙ bind-err _ find_pools-foreign

    -- The pair deals in its two assets only. Where it has two different assets, its item names its
    -- own address and its balances can be read, an asset that is neither of the two is refused: a
    -- swap of it, and a simulation of it in either direction, end with the error that the asset
    -- does not match, and a deposit of it and any other asset, in either order, aborts. The coins
    -- of the message are the amounts that it claims.
    pub foreign_refused :
        (info : MessageInfo) (other : Asset)
        → config.pair_info.asset_infos.0 ≢ config.pair_info.asset_infos.1
        → assert_sent_native_token_balance asset info ≡ ok tt
        → assert_sent_native_token_balance other info ≡ ok tt
        → ((sender : Addr) (belief_price max_spread : Option ℕ) (to : Option Addr)
            → swap deps info sender asset belief_price max_spread to ≡ err asset_mismatch)
          × (query_simulation deps asset ≡ err asset_mismatch)
          × (query_reverse_simulation deps asset ≡ err asset_mismatch)
          × ((tolerance : Option ℕ) (receiver : Option Bytes)
              → (provide_liquidity deps info (asset, other) tolerance receiver ≡ panic)
                × (provide_liquidity deps info (other, asset) tolerance receiver ≡ panic))
    foreign_refused info other differ sent_0 sent_1 = (
      λ sender belief_price max_spread to.
          swap-foreign info sender belief_price max_spread to sent_0,
      query_simulation-foreign,
      query_reverse_simulation-foreign,
      λ tolerance receiver. (
        provide_liquidity-short info (asset, other) tolerance receiver sent_0 sent_1
            (find_amount-foreign_first (asset, other) _ _ differ not_0 not_1),
        provide_liquidity-short info (other, asset) tolerance receiver sent_1 sent_0
            (find_amount-foreign_second (other, asset) _ _ differ not_0 not_1),
      ),
    )
