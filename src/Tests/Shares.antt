-- ===== src/Tests/Shares.antt =====
-- A swap on the small ledgers, as a step of the market.
use prismswap_contracts.Base.{
  ℕ, ◌+◌, ◌*◌, ◌≤◌, List, ◌≡◌, ◌≢◌, refl, ap, arith, none, some, [], ◌∷◌, ok, bytes_eq, ◌>>=◌, must,
  ok_or, ensure, map_err, unwrap_or,
}
use prismswap_contracts.Delivery.{deliver_all}
use prismswap_contracts.Asset.{
  Addr, asset_eq, find_coin, is_native_token, assert_sent_native_token_balance,
}
use prismswap_contracts.Messages.{PairExecuteMsg, swap as swap_msg}
use prismswap_contracts.Querier.{
  query_token_balance, query_balance, query_fee_info, query_pool, query_pools, check,
}
use prismswap_contracts.Pair.State.{load}
use prismswap_contracts.Pair.Swap.{compute_swap, assert_max_spread}
use prismswap_contracts.Pair.Trade.{without_offer, choose_pools, pay, swap}
use prismswap_contracts.Pair.Contract.{validate_to, execute}
use prismswap_contracts.Messages.{wasm_execute, text, addr, number, asset_pair, CosmosMsg, Response}
use prismswap_contracts.Querier.{query_supply}
use prismswap_contracts.Pair.Liquidity.{withdraw_liquidity}
use prismswap_contracts.Market.Value.{withdrawal_keeps_worth}
use prismswap_contracts.Market.Pool.{Refined, IsWorth}
use prismswap_contracts.Market.Ledger.{view, Arrived, MarketStep, called}
use prismswap_contracts.Market.Refines.{MarketStep-refines, Run, start, next, Run-IsWorth}
use prismswap_contracts.Tests.{
  coin_info, token_info, share_token, token, sent_by, send_asset, alice, pair_address, coin,
  with_coins,
}
use prismswap_contracts.Tests.Pool.{swap_response}
use prismswap_contracts.Tests.Trading.{
  Books, books_deps, call_token, deliver, trading, trading-IsMarket,
}

abbrev before : Books
before = record { coins = 1000000; tokens = 2000000; shares = 100 }

abbrev arrived : Books
arrived = record { coins = 1001000; tokens = 2000000; shares = 100 }

abbrev after_swap : Books
after_swap = record { coins = 1001000; tokens = 1998006; shares = 100 }

abbrev msg : PairExecuteMsg
msg = swap_msg (coin 1000) none none none

coins_arrived : Arrived trading before (with_coins 1000) msg arrived
unfolding find_coin bytes_eq
coins_arrived = record { first = omega arith; second = omega arith; shares = refl }

execute_run : execute (books_deps arrived) (with_coins 1000) msg ≡ ok swap_response
unfolding execute swap assert_sent_native_token_balance find_coin bytes_eq map_err ◌>>=◌ load
    query_pools query_pool query_token_balance query_balance choose_pools without_offer asset_eq
    ok_or query_fee_info compute_swap must assert_max_spread unwrap_or pay check is_native_token
    ensure validate_to
execute_run = refl

deliver_run : deliver_all trading.deliver arrived swap_response.messages ≡ some after_swap
unfolding deliver_all deliver call_token bytes_eq
deliver_run = refl

abbrev first_letter : Addr → ℕ
first_letter [] = 0
first_letter (b ∷ bs) = b

pub not_the_pair : alice ≢ pair_address
not_the_pair e = omega (arith, ap first_letter e)

swap_step : MarketStep trading before after_swap
unfolding bytes_eq
swap_step =
    called arrived (with_coins 1000) msg swap_response coins_arrived not_the_pair (omega arith)
      (omega arith) execute_run deliver_run

MarketStep-refines_example : Refined (view trading before) (view trading after_swap)
MarketStep-refines_example = MarketStep-refines trading trading-IsMarket before after_swap swap_step

swap_Run : Run trading trading-IsMarket before after_swap
swap_Run = next (start (omega arith)) swap_step (omega arith)

Run-IsWorth_example : IsWorth (view trading before) (view trading after_swap)
Run-IsWorth_example = Run-IsWorth trading trading-IsMarket swap_Run

abbrev withdraw_response : Response
withdraw_response = record {
  messages =
      send_asset coin_info 100100 alice
      ∷ send_asset token_info 199800 alice
      ∷ wasm_execute share_token (98 ∷ 10 ∷ []) []
      ∷ [];
  submessage = none;
  attributes =
      ("action", text "withdraw_liquidity")
      ∷ ("sender", addr alice)
      ∷ ("withdrawn_share", number 10)
      ∷ ("refund_assets", asset_pair (coin 100100, token 199800))
      ∷ [];
}

withdraw_run :
    withdraw_liquidity (books_deps after_swap) (sent_by share_token) alice 10 ≡ ok withdraw_response
unfolding withdraw_liquidity bytes_eq map_err ◌>>=◌ query_pools query_pool query_token_balance
    query_balance query_supply must ensure
withdraw_run = refl

withdrawal_keeps_worth_example :
    (refunds : ℕ × ℕ) × (transfers : CosmosMsg × CosmosMsg) × (rest : List CosmosMsg)
    × (withdraw_response.messages ≡ transfers.0 ∷ transfers.1 ∷ rest)
    × ((books_deps after_swap).chain.transfer_msg
          (record { info = coin_info; amount = refunds.0 })
          alice
        ≡ ok transfers.0)
    × ((books_deps after_swap).chain.transfer_msg
          (record { info = token_info; amount = refunds.1 })
          alice
        ≡ ok transfers.1)
    × (10 * 10 * (1000000 * 2000000) ≤ (refunds.0 + 2) * (refunds.1 + 2) * (100 * 100))
unfolding bytes_eq
withdrawal_keeps_worth_example =
    withdrawal_keeps_worth trading trading-IsMarket (sent_by share_token) alice 10 swap_Run
      (omega arith) (omega arith) withdraw_run
