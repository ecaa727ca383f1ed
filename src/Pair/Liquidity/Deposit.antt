-- ===== src/Pair/Liquidity/Deposit.antt =====
-- When `provide_liquidity` returns a response.
use prismswap_contracts.Base.{
  ℕ, min, ◌+◌, ◌*◌, ◌/◌, ◌<◌, ◌≡◌, ◌⊎◌, inl, inr, refl, sym, ◌∙◌, ap, not, Option, some, List, [],
  ◌∷◌, ◌++◌, ok, Bytes, arith, unwrap_or, pos→==, must-some, bind-ok, map_err-ok, ok_or-some,
  ensure-true,
}
use prismswap_contracts.Numbers.{Arith, u128, IsDocumented}
use prismswap_contracts.Numbers.Laws.{ratio-some, difference-some, fits-some}
use prismswap_contracts.Asset.{
  Addr, AssetInfo, cw20, native, Asset, MessageInfo, assert_sent_native_token_balance,
}
use prismswap_contracts.Messages.{
  transfer_from, mint, cw20_execute, Payload, CosmosMsg, wasm_execute, Response,
}
use prismswap_contracts.Querier.{query_pools, query_supply}
use prismswap_contracts.Pair.State.{Config, load, Deps}
use prismswap_contracts.Pair.Swap.{assert_slippage_tolerance}
use prismswap_contracts.Pair.Liquidity.{
  find_amount, collect_deposit, compute_share, provide_liquidity,
}

-- What the pool held before the deposit: of a native coin the deposit is in the balance already.
abbrev pub Held : Asset → (deposit before : ℕ) → Type 0
Held pool deposit before = elim (pool.info) as (λ _. Type 0) [
  | cw20 token ↦ before ≡ pool.amount
  | native denom ↦ before + deposit ≡ pool.amount
]

-- The messages that fetch a deposit.
abbrev pub fetch : (Payload → Bytes) → (owner pair : Addr) → AssetInfo → ℕ → List CosmosMsg
fetch encode owner pair (cw20 token) deposit =
    wasm_execute token (encode (cw20_execute (transfer_from owner pair deposit))) [] ∷ []
fetch encode owner pair (native denom) deposit = []

-- The sizes at which the shares of a deposit fit.
pub record FitsShare (m : Arith) (deposit pool total : ℕ) : Type 0 where
  pub pool_pos : 0 < pool
  pub product : deposit * total < m.ratio_limit
  pub shares : deposit * total / pool < u128

-- The shares that a deposit earns: the root of the product of the first deposits, or the smaller of the
-- two parts that a later one adds to the pools, within the tolerance.
abbrev pub Earns : Arith → Option ℕ → (deposits pools : ℕ × ℕ) (total share : ℕ) → Type 0
Earns m tolerance deposits pools total share =
    ((total ≡ 0)
      × (deposits.0 * deposits.1 < u128)
      × (share ≡ m.integer_sqrt (deposits.0 * deposits.1)))
    ⊎ ((0 < total)
        × (assert_slippage_tolerance m tolerance deposits pools ≡ ok tt)
        × FitsShare m deposits.0 pools.0 total
        × FitsShare m deposits.1 pools.1 total
        × (share ≡ min (deposits.0 * total / pools.0) (deposits.1 * total / pools.1)))

module _ (deps : Deps) (doc : IsDocumented deps.arith) (info : MessageInfo)
    (encode : Payload → Bytes)
    (encodes : (msg : Payload) → deps.chain.to_binary msg ≡ ok (encode msg)) where
  collects :
      (pool_info : AssetInfo) (amount deposit before : ℕ)
      → Held (record { info = pool_info; amount = amount }) deposit before
      → collect_deposit deps info (record { info = pool_info; amount = amount }) deposit
        ≡ ok (
          fetch encode info.sender deps.contract pool_info deposit,
          record { info = pool_info; amount = before },
        )
  unfolding collect_deposit
  collects (cw20 token) amount deposit before e =
      map_err-ok _ _ (encodes _)
      ∙ ap
          (λ (a : ℕ). ok (
            fetch encode info.sender deps.contract (cw20 token) deposit,
            record { info = cw20 token; amount = a },
          ))
          (sym e)
  collects (native denom) amount deposit before e = bind-ok _ (
      ok_or-some _ (
        doc.checked_sub_law amount deposit
        ∙ difference-some amount deposit (omega (arith, e))
        ∙ ap some (omega (arith, e))))

  shared :
      (tolerance : Option ℕ) (deposits pools : ℕ × ℕ) (total : ℕ)
      → 0 < total
      → assert_slippage_tolerance deps.arith tolerance deposits pools ≡ ok tt
      → FitsShare deps.arith deposits.0 pools.0 total
      → FitsShare deps.arith deposits.1 pools.1 total
      → compute_share deps.arith tolerance deposits pools total
        ≡ ok (min (deposits.0 * total / pools.0) (deposits.1 * total / pools.1))
  unfolding compute_share
  shared tolerance deposits pools total pos tolerated z_0 z_1 =
      rw (compute_share, pos→== total pos)
        (bind-ok _ tolerated
          ∙ must-some _ (
              doc.multiply_ratio_law _ _ _
              ∙ ratio-some deps.arith.ratio_limit _ pools.0 z_0.pool_pos z_0.product z_0.shares)
          ∙ must-some _ (
              doc.multiply_ratio_law _ _ _
              ∙ ratio-some deps.arith.ratio_limit _ pools.1 z_1.pool_pos z_1.product z_1.shares))

  founding :
      (tolerance : Option ℕ) (deposits pools : ℕ × ℕ)
      → deposits.0 * deposits.1 < u128
      → compute_share deps.arith tolerance deposits pools 0
        ≡ ok (deps.arith.integer_sqrt (deposits.0 * deposits.1))
  unfolding compute_share
  founding tolerance deposits pools fits =
      must-some _ (doc.mul128_law deposits.0 deposits.1 ∙ fits-some u128 _ fits)

  Earns-computed :
      (tolerance : Option ℕ) (deposits pools : ℕ × ℕ) (total share : ℕ)
      → Earns deps.arith tolerance deposits pools total share
      → compute_share deps.arith tolerance deposits pools total ≡ ok share
  Earns-computed tolerance deposits pools total share (inl (none_yet, fits, root)) =
      rw (none_yet, root) (founding tolerance deposits pools fits)
  Earns-computed tolerance deposits pools total share (inr (pos, tolerated, z_0, z_1, least)) =
      rw least (shared tolerance deposits pools total pos tolerated z_0 z_1)

  -- A deposit is answered, the first one and any later one. Where it came with the message as it
  -- claims, names both assets of the pair, and earns at least one share, and where the queries answer
  -- and the messages can be encoded, the response fetches the tokens of the deposit and mints the
  -- shares to the receiver. The first deposit earns the root of its product, where that fits; a later
  -- one the smaller of its two parts of the pools, where it is within the tolerance and the sizes fit.
  pub provide_liquidity_answered :
      (assets : Asset × Asset) (tolerance : Option ℕ) (receiver : Option Bytes) (config : Config)
      (pools : Asset × Asset) (deposits before : ℕ × ℕ) (total share : ℕ)
      → assert_sent_native_token_balance assets.0 info ≡ ok tt
      → assert_sent_native_token_balance assets.1 info ≡ ok tt
      → load deps.storage ≡ ok config
      → query_pools deps.chain config.pair_info deps.contract ≡ ok pools
      → find_amount assets pools.0.info ≡ some deposits.0
      → find_amount assets pools.1.info ≡ some deposits.1
      → Held pools.0 deposits.0 before.0
      → Held pools.1 deposits.1 before.1
      → query_supply deps.chain config.pair_info.liquidity_token ≡ ok total
      → Earns deps.arith tolerance deposits before total share
      → 0 < share
      → (resp : Response) × (provide_liquidity deps info assets tolerance receiver ≡ ok resp)
        × (resp.messages
            ≡ (fetch encode info.sender deps.contract pools.0.info deposits.0
                ++ fetch encode info.sender deps.contract pools.1.info deposits.1)
              ++ wasm_execute config.pair_info.liquidity_token
                  (encode (cw20_execute (mint (unwrap_or receiver info.sender) share)))
                  []
                ∷ [])
  unfolding provide_liquidity
  provide_liquidity_answered assets tolerance receiver config pools deposits before total share
        sent_0 sent_1 loaded queried found_0 found_1 held_0 held_1 supply earns enough =
      (
        _,
        map_err-ok _ _ sent_0
            ∙ map_err-ok _ _ sent_1
            ∙ bind-ok _ loaded
            ∙ map_err-ok _ _ queried
            ∙ must-some _ found_0
            ∙ must-some _ found_1
            ∙ bind-ok _ (collects pools.0.info pools.0.amount deposits.0 before.0 held_0)
            ∙ bind-ok _ (collects pools.1.info pools.1.amount deposits.1 before.1 held_1)
            ∙ map_err-ok _ _ supply
            ∙ bind-ok _ (Earns-computed tolerance deposits before total share earns)
            ∙ ensure-true _ _ (ap not (pos→== _ enough))
            ∙ map_err-ok _ _ (encodes _),
        refl,
      )
