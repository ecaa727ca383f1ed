-- ===== src/Pair/Liquidity/Provide.antt =====
-- What `provide_liquidity` has done where it returns a response.
use prismswap_contracts.Base.{
  ℕ, ◌+◌, ◌*◌, ◌≤◌, ◌<◌, ◌≡◌, refl, sym, ap, Option, some, List, [], ◌∷◌, ◌++◌, ok, arith, ◌⊎◌,
  unwrap_or, Bytes, >>=-elim, must-elim, map_err-elim, ensure-elim, ok_or-elim, ok-injective, inl,
  inr, zero, suc, subst,
}
use prismswap_contracts.Numbers.{IsDocumented}
use prismswap_contracts.Numbers.Laws
use prismswap_contracts.Asset.{Addr, AssetInfo, cw20, native, Asset, MessageInfo}
use prismswap_contracts.Messages.{
  transfer_from, mint, cw20_execute, CosmosMsg, wasm_execute, Response,
}
use prismswap_contracts.Querier.{query_pools, query_supply}
use prismswap_contracts.Pair.State.{Config, load, Deps}
use prismswap_contracts.Pair.Liquidity.{
  find_amount, collect_deposit, compute_share, provide_liquidity,
}
use prismswap_contracts.Pair.Liquidity.Shares.{Minted, compute_share-Minted, compute_share_first}

-- How a deposit was taken: by a `TransferFrom` of exactly the deposit, or, for a native coin, by
-- coins that are in the balance already.
abbrev pub Collected :
    Deps → MessageInfo → Asset → ℕ → (messages : List CosmosMsg) → (amount : ℕ) → Type 0
Collected deps info pool deposit messages amount =
    ((contract_addr : Addr) × (msg : Bytes) × (pool.info ≡ cw20 contract_addr)
      × (deps.chain.to_binary (cw20_execute (transfer_from info.sender deps.contract deposit))
          ≡ ok msg)
      × (messages ≡ wasm_execute contract_addr msg [] ∷ [])
      × (amount ≡ pool.amount))
    ⊎ ((denom : Bytes) × (pool.info ≡ native denom)
        × (messages ≡ [])
        × (amount + deposit ≡ pool.amount))

pub record Provided (deps : Deps) (info : MessageInfo) (assets : Asset × Asset)
    (tolerance : Option ℕ) (receiver : Option Bytes) (resp : Response) : Type 0 where
  pub config : Config
  pub loaded : load deps.storage ≡ ok config
  pub pools : Asset × Asset
  pub queried : query_pools deps.chain config.pair_info deps.contract ≡ ok pools
  pub deposits : ℕ × ℕ
  pub found_0 : find_amount assets pools.0.info ≡ some deposits.0
  pub found_1 : find_amount assets pools.1.info ≡ some deposits.1
  pub messages : List CosmosMsg × List CosmosMsg
  pub amounts : ℕ × ℕ
  pub collected_0 : Collected deps info pools.0 deposits.0 messages.0 amounts.0
  pub collected_1 : Collected deps info pools.1 deposits.1 messages.1 amounts.1
  pub total_share : ℕ
  pub supply : query_supply deps.chain config.pair_info.liquidity_token ≡ ok total_share
  pub share : ℕ
  pub computed : compute_share deps.arith tolerance deposits amounts total_share ≡ ok share
  pub share_pos : 0 < share
  pub mint_msg : Bytes
  pub encoded :
      deps.chain.to_binary (cw20_execute (mint (unwrap_or receiver info.sender) share))
      ≡ ok mint_msg
  pub sent :
      resp.messages
      ≡ (messages.0 ++ messages.1) ++ wasm_execute config.pair_info.liquidity_token mint_msg [] ∷ []

module _ (deps : Deps) (doc : IsDocumented deps.arith) (info : MessageInfo) where
  collect_deposit-Collected :
      (pool : Asset) (deposit : ℕ) {result : List CosmosMsg × Asset}
      → collect_deposit deps info pool deposit ≡ ok result
      → Collected deps info pool deposit result.0 result.1.amount
  unfolding collect_deposit
  collect_deposit-Collected pool deposit {result} h = split pool.info refl h
    where
      split :
          (i : AssetInfo)
          → pool.info ≡ i
          → collect_deposit deps info pool deposit ≡ ok result
          → Collected deps info pool deposit result.0 result.1.amount
      split (cw20 a) e h = map_err-elim _ _ _ (rw (collect_deposit, e) at h) λ msg em h.
          let p = ok-injective h in
          inl (a, msg, e, em, ap (λ r. r.0) (sym p), ap (λ r. r.1.amount) (sym p))
      split (native denom) e h = ok_or-elim _ _ _ (rw (collect_deposit, e) at h) λ amount ea h.
          let p = ok-injective h in
          inr (
            denom,
            e,
            ap (λ r. r.0) (sym p),
            omega (arith, ap (λ r. r.1.amount) p, Laws.checked_sub-eq-some deps.arith doc _ _ ea),
          )

  pub provide_liquidity-Provided :
      (assets : Asset × Asset) (tolerance : Option ℕ) (receiver : Option Bytes) {resp : Response}
      → provide_liquidity deps info assets tolerance receiver ≡ ok resp
      → Provided deps info assets tolerance receiver resp
  unfolding provide_liquidity
  provide_liquidity-Provided assets tolerance receiver h = map_err-elim _ _ _ h λ sent_0 e0 h.
      map_err-elim _ _ _ h λ sent_1 e1 h. >>=-elim _ _ h λ config e2 h.
        map_err-elim _ _ _ h λ pools e3 h. must-elim _ _ h λ deposit_0 e4 h.
          must-elim _ _ h λ deposit_1 e5 h. >>=-elim _ _ h λ collected_0 e6 h.
            >>=-elim _ _ h λ collected_1 e7 h. map_err-elim _ _ _ h λ total_share e8 h.
              >>=-elim _ _ h λ share e9 h. ensure-elim _ _ _ h λ positive h.
                map_err-elim _ _ _ h λ mint_msg e10 h. record {
                  config = config;
                  loaded = e2;
                  pools = pools;
                  queried = e3;
                  deposits = (deposit_0, deposit_1);
                  found_0 = e4;
                  found_1 = e5;
                  messages = (collected_0.0, collected_1.0);
                  amounts = (collected_0.1.amount, collected_1.1.amount);
                  collected_0 = collect_deposit-Collected pools.0 deposit_0 e6;
                  collected_1 = collect_deposit-Collected pools.1 deposit_1 e7;
                  total_share = total_share;
                  supply = e8;
                  share = share;
                  computed = e9;
                  share_pos = ground arith;
                  mint_msg = mint_msg;
                  encoded = e10;
                  sent = ap (λ (r : Response). r.messages) (sym (ok-injective h));
                }

  -- Where providing liquidity succeeds, the response collects both deposits and mints a positive
  -- number of shares to the receiver, and nothing else. Into a pool that has shares already this is
  -- the largest number that dilutes neither asset: its part of each pool is covered by the deposit of
  -- that asset. Into an empty one it is the square root of the product of the deposits, rounded down.
  pub provide_liquidity_fair :
      (assets : Asset × Asset) (tolerance : Option ℕ) (receiver : Option Bytes) {resp : Response}
      → provide_liquidity deps info assets tolerance receiver ≡ ok resp
      → (p : Provided deps info assets tolerance receiver resp) × (((0 < p.total_share)
            × Minted p.deposits p.amounts p.total_share p.share)
          ⊎ ((p.total_share ≡ 0)
              × (p.share * p.share ≤ p.deposits.0 * p.deposits.1)
              × (p.deposits.0 * p.deposits.1 < (p.share + 1) * (p.share + 1))))
  provide_liquidity_fair assets tolerance receiver h =
      let p = provide_liquidity-Provided assets tolerance receiver h in
      (p, shares p p.total_share refl)
    where
      shares :
          {resp : Response} (p : Provided deps info assets tolerance receiver resp) (total : ℕ)
          → p.total_share ≡ total
          → (((0 < p.total_share) × Minted p.deposits p.amounts p.total_share p.share)
              ⊎ ((p.total_share ≡ 0)
                  × (p.share * p.share ≤ p.deposits.0 * p.deposits.1)
                  × (p.deposits.0 * p.deposits.1 < (p.share + 1) * (p.share + 1))))
      shares p zero e =
          let (low, high) = compute_share_first deps.arith doc tolerance p.deposits p.amounts (
            subst (λ t. compute_share deps.arith tolerance p.deposits p.amounts t ≡ ok p.share) e
              p.computed) in
          inr (e, low, high)
      shares p (suc n) e =
          let pos : 0 < p.total_share = omega arith in
          inl (
            pos,
            compute_share-Minted deps.arith doc tolerance p.deposits p.amounts _ pos p.computed,
          )
