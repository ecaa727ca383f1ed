-- ===== src/Tests/Pool.antt =====
-- Swaps of the pair on a small chain.
use prismswap_contracts.Base.{
  ◌+◌, ◌-◌, ◌*◌, ◌≤◌, ◌≡◌, refl, none, some, [], ◌∷◌, ok, arith, inl, ascii, bytes_eq, ◌>>=◌, must,
  ok_or, map_err, unwrap_or,
}
use prismswap_contracts.Numbers.Reference.{reference-IsDocumented}
use prismswap_contracts.Asset.{asset_eq, find_coin, assert_sent_native_token_balance}
use prismswap_contracts.Messages.{wasm_execute, text, addr, number, info, Response}
use prismswap_contracts.Querier.{
  query_token_balance, query_balance, query_fee_info, query_pool, query_pools,
}
use prismswap_contracts.Pair.State.{load}
use prismswap_contracts.Pair.Swap.{compute_swap, assert_max_spread}
use prismswap_contracts.Pair.Trade.{without_offer, choose_pools, pay, swap}
use prismswap_contracts.Pair.Trade.Traded.{Traded}
use prismswap_contracts.Pair.Trade.Reserves.{swap_keeps_product}
use prismswap_contracts.Pair.Query.{query_simulation}
use prismswap_contracts.Pair.Query.Agreement.{query_simulation-swap}
use prismswap_contracts.Tests.{
  alice, coin_info, token_info, fee_info, config, pair_deps, chain, coin, token, with_coins,
}

abbrev pub swap_response : Response
swap_response = record {
  messages =
      wasm_execute (ascii "token") (116 ∷ 1993 ∷ []) []
      ∷ wasm_execute (ascii "token") (116 ∷ 1 ∷ []) []
      ∷ [];
  submessage = none;
  attributes =
      ("action", text "swap")
      ∷ ("sender", addr alice)
      ∷ ("receiver", addr alice)
      ∷ ("offer_asset", info coin_info)
      ∷ ("ask_asset", info token_info)
      ∷ ("offer_amount", number 1000)
      ∷ ("return_amount", number 1993)
      ∷ ("spread_amount", number 2)
      ∷ ("commission_amount", number 5)
      ∷ ("protocol_fee_amount", number 1)
      ∷ [];
}

-- 1000 coins are in the balance already.
pub swap_run :
    swap (pair_deps 1001000 2000000 0) (with_coins 1000) alice (coin 1000) none none none
    ≡ ok swap_response
unfolding swap assert_sent_native_token_balance find_coin bytes_eq map_err ◌>>=◌ load query_pools
    query_pool query_token_balance query_balance choose_pools without_offer asset_eq ok_or
    query_fee_info compute_swap must assert_max_spread unwrap_or pay
swap_run = refl

pub pools_run :
    query_pools (chain 1001000 2000000 0) config.pair_info (ascii "pair")
    ≡ ok (coin 1001000, token 2000000)
unfolding query_pools query_pool query_token_balance query_balance ◌>>=◌
pools_run = refl

pub fees_run :
    query_fee_info (chain 1001000 2000000 0) config.factory config.pair_info.asset_infos
    ≡ ok fee_info
unfolding query_fee_info
fees_run = refl

pub load_run : load (some config) ≡ ok config
unfolding load
load_run = refl

swap_keeps_product_example :
    (t : Traded
      (pair_deps 1001000 2000000 0)
      (with_coins 1000)
      alice
      (coin 1000)
      none
      none
      none
      swap_response)
    × (t.return_amount + t.protocol_fee_amount ≤ t.chosen.1.amount)
    × (t.chosen.0.amount * t.chosen.1.amount
        ≤ (t.chosen.0.amount + 1000)
          * (t.chosen.1.amount - (t.return_amount + t.protocol_fee_amount)))
swap_keeps_product_example =
    swap_keeps_product (pair_deps 1001000 2000000 0) reference-IsDocumented (with_coins 1000) alice
      (coin 1000) none none none config (coin 1001000, token 2000000) fee_info load_run pools_run
      fees_run (omega arith) (omega arith) (omega arith) swap_run

pub pools_before :
    query_pools (chain 1000000 2000000 0) config.pair_info (ascii "pair")
    ≡ ok (coin 1000000, token 2000000)
unfolding query_pools query_pool query_token_balance query_balance ◌>>=◌
pools_before = refl

pub same_fees :
    query_fee_info (chain 1000000 2000000 0) config.factory config.pair_info.asset_infos
    ≡ query_fee_info (chain 1001000 2000000 0) config.factory config.pair_info.asset_infos
unfolding query_fee_info
same_fees = refl

query_simulation-swap_example :
    (t : Traded
      (pair_deps 1001000 2000000 0)
      (with_coins 1000)
      alice
      (coin 1000)
      none
      none
      none
      swap_response)
    × (query_simulation (pair_deps 1000000 2000000 0) (coin 1000)
        ≡ ok (record {
          return_amount = t.return_amount;
          spread_amount = t.spread_amount;
          commission_amount = t.commission_amount;
        }))
query_simulation-swap_example =
    query_simulation-swap (pair_deps 1001000 2000000 0) (pair_deps 1000000 2000000 0)
      reference-IsDocumented (with_coins 1000) alice (coin 1000) none none none config
      (coin 1000000, token 2000000) (coin 1001000, token 2000000) refl load_run load_run
      pools_before pools_run (inl (refl, refl, omega arith, refl)) same_fees swap_run
