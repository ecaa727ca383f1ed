-- ===== src/Pair/Trade.antt =====
-- The handler `swap` of contracts/prismswap_pair/src/contract.rs.
pub mod Traded
pub mod Reserves
pub mod Answers
use prismswap_contracts.Base.{
  ℕ, Option, none, List, [], ◌∷◌, ◌++◌, ok, err, ◌>>=◌, ◌>>◌, must, ok_or, unwrap_or, ◌==◌,
  if◌then◌else◌,
}
use prismswap_contracts.Numbers.{Arith}
use prismswap_contracts.Asset.{Addr, Asset, MessageInfo, asset_eq, assert_sent_native_token_balance}
use prismswap_contracts.Messages.{CosmosMsg, text, addr, number, info as shown_info, Response}
use prismswap_contracts.Querier.{query_pools, query_fee_info}
use prismswap_contracts.Pair.Error.{PairResult, overflow_error, asset_mismatch}
use prismswap_contracts.Pair.Swap.{compute_swap, assert_max_spread}
use prismswap_contracts.Pair.State.{load, try, Deps}

-- A pool without the offer that its balance holds already.
unfoldable pub without_offer : Arith → Asset → ℕ → PairResult Asset
without_offer m pool offer_amount = do
  amount ← ok_or (m.checked_sub pool.amount offer_amount) overflow_error
  ok (record pool { amount = amount })

-- The pool of the offered asset before the offer, and the pool of the other.
unfoldable pub choose_pools : Arith → Asset → Asset × Asset → PairResult (Asset × Asset)
choose_pools m offer_asset pools =
    if asset_eq offer_asset.info pools.0.info
    then (do offer_pool ← without_offer m pools.0 offer_asset.amount; ok (offer_pool, pools.1))
    else if asset_eq offer_asset.info pools.1.info
    then (do offer_pool ← without_offer m pools.1 offer_asset.amount; ok (offer_pool, pools.0))
    else err asset_mismatch

-- A message that pays the asset, unless its amount is zero.
unfoldable pub pay : Deps → Asset → Addr → PairResult (List CosmosMsg)
pay deps asset receiver =
    if asset.amount == 0
    then ok []
    else (do msg ← try (deps.chain.transfer_msg asset receiver); ok (msg ∷ []))

unfoldable pub swap :
    Deps → MessageInfo → Addr → Asset → Option ℕ → Option ℕ → Option Addr → PairResult Response
swap deps info sender offer_asset belief_price max_spread to = do
  try (assert_sent_native_token_balance offer_asset info)
  config ← load deps.storage
  pools ← try (query_pools deps.chain config.pair_info deps.contract)
  chosen ← choose_pools deps.arith offer_asset pools
  fee_info ← try (query_fee_info deps.chain config.factory config.pair_info.asset_infos)
  let offer_amount = offer_asset.amount
  computed ←
      compute_swap deps.arith chosen.0.amount chosen.1.amount offer_amount
        fee_info.fee_config.total_fee
  let return_amount = computed.0
  let spread_amount = computed.1
  let commission_amount = computed.2
  gross ← must (deps.arith.add128 return_amount commission_amount)
  assert_max_spread deps.arith belief_price max_spread offer_amount gross spread_amount
  let receiver = unwrap_or to sender
  returned ← pay deps (record { info = chosen.1.info; amount = return_amount }) receiver
  protocol_fee_amount ←
      must (deps.arith.mul_decimal commission_amount fee_info.fee_config.protocol_fee)
  collected ←
      pay deps (record { info = chosen.1.info; amount = protocol_fee_amount }) fee_info.collector
  ok (record {
    messages = returned ++ collected;
    submessage = none;
    attributes =
        ("action", text "swap")
        ∷ ("sender", addr sender)
        ∷ ("receiver", addr receiver)
        ∷ ("offer_asset", shown_info offer_asset.info)
        ∷ ("ask_asset", shown_info chosen.1.info)
        ∷ ("offer_amount", number offer_amount)
        ∷ ("return_amount", number return_amount)
        ∷ ("spread_amount", number spread_amount)
        ∷ ("commission_amount", number commission_amount)
        ∷ ("protocol_fee_amount", number protocol_fee_amount)
        ∷ [];
  })
