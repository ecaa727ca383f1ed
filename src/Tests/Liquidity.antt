-- ===== src/Tests/Liquidity.antt =====
-- Deposits and withdrawals of the pair on a small chain.
use prismswap_contracts.Base.{
  ◌+◌, ◌*◌, ◌≤◌, ◌<◌, ◌≡◌, ◌⊎◌, refl, none, [], ◌∷◌, ok, err, arith, ascii, bytes_eq, ◌>>=◌, must,
  ok_or, ensure, map_err, unwrap_or,
}
use prismswap_contracts.Numbers.Reference.{reference, reference-IsDocumented, square_root}
use prismswap_contracts.Asset.{asset_eq, find_coin, assert_sent_native_token_balance}
use prismswap_contracts.Messages.{
  wasm_execute, bank_send, text, addr, number, asset_pair, Cw20ReceiveMsg, receive, Response,
}
use prismswap_contracts.Querier.{
  query_token_balance, query_balance, query_supply, query_pool, query_pools,
}
use prismswap_contracts.Pair.Error.{unauthorized}
use prismswap_contracts.Pair.State.{load}
use prismswap_contracts.Pair.Swap.{assert_slippage_tolerance}
use prismswap_contracts.Pair.Liquidity.{
  find_amount, collect_deposit, compute_share, provide_liquidity, withdraw_liquidity,
}
use prismswap_contracts.Pair.Liquidity.Shares.{Minted, refund}
use prismswap_contracts.Pair.Liquidity.Provide.{Provided, provide_liquidity_fair}
use prismswap_contracts.Pair.Liquidity.Withdraw.{Withdrawn, provide_then_withdraw}
use prismswap_contracts.Pair.Contract.{hook, receive_cw20, execute}
use prismswap_contracts.Pair.Contract.Authority.{Received, execute_receive}
use prismswap_contracts.Tests.{
  alice, share_token, config, pair_deps, chain, coin, token, with_coins, sent_by,
}

abbrev provide_response : Response
provide_response = record {
  messages =
      wasm_execute (ascii "token") (102 ∷ 200 ∷ []) []
      ∷ wasm_execute share_token (109 ∷ 10 ∷ []) []
      ∷ [];
  submessage = none;
  attributes =
      ("action", text "provide_liquidity")
      ∷ ("sender", addr alice)
      ∷ ("receiver", addr alice)
      ∷ ("assets", asset_pair (coin 100, token 200))
      ∷ ("share", number 10)
      ∷ [];
}

-- The pools hold 1000 coins and 2000 tokens, and there are 100 shares.
provide_run :
    provide_liquidity (pair_deps 1100 2000 100) (with_coins 100) (coin 100, token 200) none none
    ≡ ok provide_response
unfolding provide_liquidity assert_sent_native_token_balance find_coin bytes_eq map_err ◌>>=◌ load
    query_pools query_pool query_token_balance query_balance find_amount collect_deposit asset_eq
    ok_or query_supply compute_share assert_slippage_tolerance must unwrap_or ensure
provide_run = refl

provide_liquidity_fair_example :
    (p : Provided
      (pair_deps 1100 2000 100)
      (with_coins 100)
      (coin 100, token 200)
      none
      none
      provide_response)
    × (((0 < p.total_share) × Minted p.deposits p.amounts p.total_share p.share)
        ⊎ ((p.total_share ≡ 0)
            × (p.share * p.share ≤ p.deposits.0 * p.deposits.1)
            × (p.deposits.0 * p.deposits.1 < (p.share + 1) * (p.share + 1))))
provide_liquidity_fair_example =
    provide_liquidity_fair (pair_deps 1100 2000 100) reference-IsDocumented (with_coins 100)
      (coin 100, token 200) none none provide_run

-- Into an empty pool: the square root of 200 is 14.
provide_first_share : compute_share reference none (10, 20) (0, 0) 0 ≡ ok 14
unfolding compute_share must ◌>>=◌ square_root
provide_first_share = refl

abbrev withdraw_response : Response
withdraw_response = record {
  messages =
      bank_send alice (record { denom = ascii "uusd"; amount = 99 } ∷ [])
      ∷ wasm_execute (ascii "token") (116 ∷ 199 ∷ []) []
      ∷ wasm_execute share_token (98 ∷ 10 ∷ []) []
      ∷ [];
  submessage = none;
  attributes =
      ("action", text "withdraw_liquidity")
      ∷ ("sender", addr alice)
      ∷ ("withdrawn_share", number 10)
      ∷ ("refund_assets", asset_pair (coin 99, token 199))
      ∷ [];
}

withdraw_run :
    withdraw_liquidity (pair_deps 1100 2200 110) (sent_by share_token) alice 10
    ≡ ok withdraw_response
unfolding withdraw_liquidity bytes_eq map_err ◌>>=◌ query_pools query_pool query_token_balance
    query_balance query_supply must ensure
withdraw_run = refl

minted_run : compute_share reference none (100, 200) (1000, 2000) 100 ≡ ok 10
unfolding compute_share must ◌>>=◌ assert_slippage_tolerance
minted_run = refl

pools_after :
    query_pools (chain 1100 2200 110) config.pair_info (ascii "pair") ≡ ok (coin 1100, token 2200)
unfolding query_pools query_pool query_token_balance query_balance ◌>>=◌
pools_after = refl

supply_after : query_supply (chain 1100 2200 110) config.pair_info.liquidity_token ≡ ok 110
unfolding query_supply ◌>>=◌
supply_after = refl

provide_then_withdraw_example :
    (w : Withdrawn (pair_deps 1100 2200 110) (sent_by share_token) alice 10 withdraw_response)
    × (refund w.pools.0.amount 10 w.total_share ≤ 100)
    × (refund w.pools.1.amount 10 w.total_share ≤ 200)
provide_then_withdraw_example =
    provide_then_withdraw (pair_deps 1100 2200 110) reference-IsDocumented (sent_by share_token)
      alice none (100, 200) (1000, 2000) 100 config (coin 1100, token 2200) (omega arith) minted_run
      refl pools_after refl refl supply_after withdraw_run

abbrev pub withdraw_msg : Cw20ReceiveMsg
withdraw_msg = record { sender = alice; amount = 10; msg = [] }

pub receive_run :
    execute (pair_deps 1100 2200 110) (sent_by share_token) (receive withdraw_msg)
    ≡ ok withdraw_response
unfolding execute receive_cw20 hook withdraw_liquidity bytes_eq map_err ◌>>=◌ query_pools query_pool
    query_token_balance query_balance query_supply must ensure
receive_run = refl

execute_receive_example :
    Received (pair_deps 1100 2200 110) (sent_by share_token) withdraw_msg withdraw_response
execute_receive_example =
    execute_receive (pair_deps 1100 2200 110) reference-IsDocumented (sent_by share_token)
      withdraw_msg receive_run

-- A token that is not the share token cannot withdraw.
withdraw_refused :
    execute (pair_deps 1100 2200 110) (sent_by (ascii "token")) (receive withdraw_msg)
    ≡ err unauthorized
unfolding execute receive_cw20 hook withdraw_liquidity bytes_eq map_err ◌>>=◌ must ensure
withdraw_refused = refl
