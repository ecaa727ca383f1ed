-- ===== src/Pair/Liquidity.antt =====
-- Providing and withdrawing liquidity: `provide_liquidity` and `withdraw_liquidity` of
-- contracts/prismswap_pair/src/contract.rs.
pub mod Shares
pub mod Provide
pub mod Withdraw
pub mod Redeem
pub mod Deposit
use prismswap_contracts.Base.{
  ℕ, min, true, false, not, Option, none, some, List, [], ◌∷◌, ◌++◌, ok, ◌>>=◌, ◌>>◌, ensure, must,
  ok_or, unwrap_or, ◌==◌, if◌then◌else◌, Bytes, bytes_eq,
}
use prismswap_contracts.Numbers.{Arith}
use prismswap_contracts.Asset.{
  Addr, AssetInfo, cw20, native, Asset, MessageInfo, asset_eq, assert_sent_native_token_balance,
}
use prismswap_contracts.Messages.{
  transfer_from, mint, burn, cw20_execute, CosmosMsg, wasm_execute, text, addr, number, asset_pair,
  Response,
}
use prismswap_contracts.Querier.{query_pools, query_supply}
use prismswap_contracts.Pair.Error.{PairResult, overflow_error, unauthorized, invalid_zero_amount}
use prismswap_contracts.Pair.Swap.{assert_slippage_tolerance}
use prismswap_contracts.Pair.State.{load, try, Deps}

-- The amount of the first of the two assets with the given info.
unfoldable pub find_amount : Asset × Asset → AssetInfo → Option ℕ
find_amount assets info =
    if asset_eq assets.0.info info
    then some assets.0.amount
    else if asset_eq assets.1.info info
    then some assets.1.amount
    else none

-- One round of the loop over the pools: a token is fetched by a message, and of a native coin the
-- deposit is in the balance already.
unfoldable pub collect_deposit :
    Deps → MessageInfo → Asset → ℕ → PairResult (List CosmosMsg × Asset)
collect_deposit deps info pool deposit = elim (pool.info) [
  | cw20 contract_addr ↦ do
    msg ←
        try (deps.chain.to_binary (cw20_execute (transfer_from info.sender deps.contract deposit)))
    ok (wasm_execute contract_addr msg [] ∷ [], pool)
  | native denom ↦ do
    amount ← ok_or (deps.arith.checked_sub pool.amount deposit) overflow_error
    ok ([], record pool { amount = amount })
]

-- The shares to mint: `let share = …`.
unfoldable pub compute_share : Arith → Option ℕ → ℕ × ℕ → ℕ × ℕ → ℕ → PairResult ℕ
compute_share m slippage_tolerance deposits pools total_share = elim (total_share == 0) [
  | true ↦ do collateral ← must (m.mul128 deposits.0 deposits.1); ok (m.integer_sqrt collateral)
  | false ↦ do
    assert_slippage_tolerance m slippage_tolerance deposits pools
    first ← must (m.multiply_ratio deposits.0 total_share pools.0)
    second ← must (m.multiply_ratio deposits.1 total_share pools.1)
    ok (min first second)
]

unfoldable pub provide_liquidity :
    Deps → MessageInfo → Asset × Asset → Option ℕ → Option Bytes → PairResult Response
provide_liquidity deps info assets slippage_tolerance receiver = do
  try (assert_sent_native_token_balance assets.0 info)
  try (assert_sent_native_token_balance assets.1 info)
  config ← load deps.storage
  pools ← try (query_pools deps.chain config.pair_info deps.contract)
  deposit_0 ← must (find_amount assets pools.0.info)
  deposit_1 ← must (find_amount assets pools.1.info)
  collected_0 ← collect_deposit deps info pools.0 deposit_0
  collected_1 ← collect_deposit deps info pools.1 deposit_1
  total_share ← try (query_supply deps.chain config.pair_info.liquidity_token)
  share ←
      compute_share deps.arith slippage_tolerance (deposit_0, deposit_1)
        (collected_0.1.amount, collected_1.1.amount) total_share
  ensure (not (share == 0)) invalid_zero_amount
  let to = unwrap_or receiver info.sender
  mint_msg ← try (deps.chain.to_binary (cw20_execute (mint to share)))
  ok (record {
    messages =
        (collected_0.0 ++ collected_1.0)
        ++ wasm_execute config.pair_info.liquidity_token mint_msg [] ∷ [];
    submessage = none;
    attributes =
        ("action", text "provide_liquidity")
        ∷ ("sender", addr info.sender)
        ∷ ("receiver", addr to)
        ∷ ("assets", asset_pair assets)
        ∷ ("share", number share)
        ∷ [];
  })

-- `sender` is the account that sent the shares to the pair.
unfoldable pub withdraw_liquidity : Deps → MessageInfo → Addr → ℕ → PairResult Response
withdraw_liquidity deps info sender amount = do
  config ← must deps.storage
  ensure (bytes_eq info.sender config.pair_info.liquidity_token) unauthorized
  pools ← try (query_pools deps.chain config.pair_info deps.contract)
  total_share ← try (query_supply deps.chain config.pair_info.liquidity_token)
  share_ratio ← must (deps.arith.decimal_from_ratio amount total_share)
  amount_0 ← must (deps.arith.mul_decimal pools.0.amount share_ratio)
  amount_1 ← must (deps.arith.mul_decimal pools.1.amount share_ratio)
  let refund_0 : Asset = record { info = pools.0.info; amount = amount_0 }
  let refund_1 : Asset = record { info = pools.1.info; amount = amount_1 }
  transfer_0 ← try (deps.chain.transfer_msg refund_0 sender)
  transfer_1 ← try (deps.chain.transfer_msg refund_1 sender)
  burn_msg ← try (deps.chain.to_binary (cw20_execute (burn amount)))
  ok (record {
    messages =
        transfer_0 ∷ transfer_1 ∷ wasm_execute config.pair_info.liquidity_token burn_msg [] ∷ [];
    submessage = none;
    attributes =
        ("action", text "withdraw_liquidity")
        ∷ ("sender", addr sender)
        ∷ ("withdrawn_share", number amount)
        ∷ ("refund_assets", asset_pair (refund_0, refund_1))
        ∷ [];
  })
