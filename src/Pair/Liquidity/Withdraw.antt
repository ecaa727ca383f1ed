-- ===== src/Pair/Liquidity/Withdraw.antt =====
-- What `withdraw_liquidity` has done where it returns a response.
use prismswap_contracts.Base.{
  Option, ◌+◌, ℕ, ◌*◌, ◌≤◌, ◌<◌, ◌≡◌, sym, ap, some, [], ◌∷◌, ok, Bytes, must-elim, map_err-elim,
  ensure-elim, ok-injective, bytes_eq_iff,
}
use prismswap_contracts.Numbers.{IsDocumented}
use prismswap_contracts.Numbers.Laws
use prismswap_contracts.Asset.{Addr, Asset, MessageInfo}
use prismswap_contracts.Messages.{burn, cw20_execute, CosmosMsg, wasm_execute, Response}
use prismswap_contracts.Querier.{query_pools, query_supply}
use prismswap_contracts.Pair.State.{Config, Deps}
use prismswap_contracts.Pair.Liquidity.{compute_share, withdraw_liquidity}
use prismswap_contracts.Pair.Liquidity.Shares.{
  compute_share-Minted, refund, refund-le, refund-deposit,
}

-- A response that refunds `sender`, and burns the shares that were sent in.
pub record Withdrawn (deps : Deps) (info : MessageInfo) (sender : Addr) (share : ℕ)
    (resp : Response) : Type 0 where
  pub config : Config
  pub loaded : deps.storage ≡ some config
  pub authorized : info.sender ≡ config.pair_info.liquidity_token
  pub pools : Asset × Asset
  pub queried : query_pools deps.chain config.pair_info deps.contract ≡ ok pools
  pub total_share : ℕ
  pub supply : query_supply deps.chain config.pair_info.liquidity_token ≡ ok total_share
  pub total_pos : 0 < total_share
  pub transfers : CosmosMsg × CosmosMsg
  pub refunded_0 :
      deps.chain.transfer_msg
        (record { info = pools.0.info; amount = refund pools.0.amount share total_share })
        sender
      ≡ ok transfers.0
  pub refunded_1 :
      deps.chain.transfer_msg
        (record { info = pools.1.info; amount = refund pools.1.amount share total_share })
        sender
      ≡ ok transfers.1
  pub burn_msg : Bytes
  pub encoded : deps.chain.to_binary (cw20_execute (burn share)) ≡ ok burn_msg
  pub sent :
      resp.messages
      ≡ transfers.0 ∷ transfers.1 ∷ wasm_execute config.pair_info.liquidity_token burn_msg [] ∷ []

module _ (deps : Deps) (doc : IsDocumented deps.arith) (info : MessageInfo) (sender : Addr) where
  refund_amount :
      (pool share total : ℕ) {ratio amount : ℕ}
      → deps.arith.decimal_from_ratio share total ≡ some ratio
      → deps.arith.mul_decimal pool ratio ≡ some amount
      → amount ≡ refund pool share total
  refund_amount pool share total er ea =
      let (ratio, pos) = Laws.decimal_from_ratio-eq-some deps.arith doc _ _ er in
      rw ratio at (Laws.mul_decimal-eq-some deps.arith doc _ _ ea)

  pub withdraw_liquidity-Withdrawn :
      (share : ℕ) {resp : Response}
      → withdraw_liquidity deps info sender share ≡ ok resp
      → Withdrawn deps info sender share resp
  unfolding withdraw_liquidity
  withdraw_liquidity-Withdrawn share h = must-elim _ _ h λ config e0 h.
      ensure-elim _ _ _ h λ same h. map_err-elim _ _ _ h λ pools e1 h.
        map_err-elim _ _ _ h λ total e2 h. must-elim _ _ h λ ratio e3 h.
          must-elim _ _ h λ amount_0 e4 h. must-elim _ _ h λ amount_1 e5 h.
            map_err-elim _ _ _ h λ transfer_0 e6 h. map_err-elim _ _ _ h λ transfer_1 e7 h.
              map_err-elim _ _ _ h λ burn_msg e8 h. record {
                config = config;
                loaded = e0;
                authorized = (bytes_eq_iff _ _).0 same;
                pools = pools;
                queried = e1;
                total_share = total;
                supply = e2;
                total_pos = (Laws.decimal_from_ratio-eq-some deps.arith doc _ _ e3).1;
                transfers = (transfer_0, transfer_1);
                refunded_0 = rw (← refund_amount pools.0.amount share total e3 e4) e6;
                refunded_1 = rw (← refund_amount pools.1.amount share total e3 e5) e7;
                burn_msg = burn_msg;
                encoded = e8;
                sent = ap (λ (r : Response). r.messages) (sym (ok-injective h));
              }

  -- Where a withdrawal succeeds, the shares came from the share token, the response refunds each
  -- asset, and of each pool at most the part that the shares are of all shares.
  pub withdraw_liquidity_fair :
      (share : ℕ) {resp : Response}
      → withdraw_liquidity deps info sender share ≡ ok resp
      → (w : Withdrawn deps info sender share resp) × (refund w.pools.0.amount share w.total_share
            * w.total_share
          ≤ share * w.pools.0.amount)
        × (refund w.pools.1.amount share w.total_share * w.total_share ≤ share * w.pools.1.amount)
  withdraw_liquidity_fair share h =
      let w = withdraw_liquidity-Withdrawn share h in
      (
        w,
        refund-le w.pools.0.amount share w.total_share w.total_pos,
        refund-le w.pools.1.amount share w.total_share w.total_pos,
      )

  -- Shares minted for two deposits into pools with shares, and withdrawn before anything else
  -- changes the pools: the response refunds each asset, and no more of it than was deposited.
  pub provide_then_withdraw :
      (tolerance : Option ℕ) (deposits before : ℕ × ℕ) (total : ℕ) {share : ℕ} {resp : Response}
      (config : Config) (pools : Asset × Asset)
      → 0 < total
      → compute_share deps.arith tolerance deposits before total ≡ ok share
      → deps.storage ≡ some config
      → query_pools deps.chain config.pair_info deps.contract ≡ ok pools
      → pools.0.amount ≡ before.0 + deposits.0
      → pools.1.amount ≡ before.1 + deposits.1
      → query_supply deps.chain config.pair_info.liquidity_token ≡ ok (total + share)
      → withdraw_liquidity deps info sender share ≡ ok resp
      → (w : Withdrawn deps info sender share resp) × (refund w.pools.0.amount share w.total_share
          ≤ deposits.0)
        × (refund w.pools.1.amount share w.total_share ≤ deposits.1)
  provide_then_withdraw tolerance deposits before total {share} config pools pos minted stored
        queried first second supply h =
      let w = withdraw_liquidity-Withdrawn share h in
      let covers = compute_share-Minted deps.arith doc tolerance deposits before total pos minted in
      let same : w.config ≡ config = cc (stored, w.loaded) in
      let pools-eq : w.pools ≡ pools = cc (same, queried, w.queried) in
      let total-eq : w.total_share ≡ total + share = cc (same, supply, w.supply) in
      (
        w,
        rw (pools-eq, total-eq, first)
            (refund-deposit deposits.0 before.0 total share pos covers.first_covers),
        rw (pools-eq, total-eq, second)
            (refund-deposit deposits.1 before.1 total share pos covers.second_covers),
      )
