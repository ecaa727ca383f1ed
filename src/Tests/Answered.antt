-- ===== src/Tests/Answered.antt =====
-- Handlers of the pair that answer, on a small chain.
use prismswap_contracts.Base.{some, ◌≡◌, refl, none, ok, ascii, bytes_eq, ◌>>=◌}
use prismswap_contracts.Numbers.Reference.{reference}
use prismswap_contracts.Asset.{asset_eq, Addr, Asset, find_coin, assert_sent_native_token_balance}
use prismswap_contracts.Messages.{CosmosMsg}
use prismswap_contracts.Querier.{
  query_token_balance, query_balance, query_supply, query_pool, query_pools,
}
use prismswap_contracts.Pair.Swap.{assert_max_spread, assert_slippage_tolerance}
use prismswap_contracts.Pair.Liquidity.{find_amount}
use prismswap_contracts.Tests.{
  coin_info, token_info, config, chain, coin, token, with_coins, send_asset,
}

abbrev transfer : Asset → Addr → CosmosMsg
transfer asset to = send_asset asset.info asset.amount to

pools_now :
    query_pools (chain 1100 2200 110) config.pair_info (ascii "pair") ≡ ok (coin 1100, token 2200)
unfolding query_pools query_pool query_token_balance query_balance ◌>>=◌
pools_now = refl

supply_now : query_supply (chain 1100 2200 110) config.pair_info.liquidity_token ≡ ok 110
unfolding query_supply ◌>>=◌
supply_now = refl

pub offer_sent : assert_sent_native_token_balance (coin 1000) (with_coins 1000) ≡ ok tt
unfolding assert_sent_native_token_balance find_coin bytes_eq
offer_sent = refl

pub spread_unchecked : assert_max_spread reference none none 1000 1998 2 ≡ ok tt
unfolding assert_max_spread
spread_unchecked = refl

pools_with_deposit :
    query_pools (chain 1100 2000 100) config.pair_info (ascii "pair") ≡ ok (coin 1100, token 2000)
unfolding query_pools query_pool query_token_balance query_balance ◌>>=◌
pools_with_deposit = refl

supply_then : query_supply (chain 1100 2000 100) config.pair_info.liquidity_token ≡ ok 100
unfolding query_supply ◌>>=◌
supply_then = refl

pub coins_sent : assert_sent_native_token_balance (coin 100) (with_coins 100) ≡ ok tt
unfolding assert_sent_native_token_balance find_coin bytes_eq
coins_sent = refl

pub tokens_unsent : assert_sent_native_token_balance (token 200) (with_coins 100) ≡ ok tt
unfolding assert_sent_native_token_balance
tokens_unsent = refl

pub coins_found : find_amount (coin 100, token 200) coin_info ≡ some 100
unfolding find_amount asset_eq bytes_eq
coins_found = refl

pub tokens_found : find_amount (coin 100, token 200) token_info ≡ some 200
unfolding find_amount asset_eq bytes_eq
tokens_found = refl

pub untolerated : assert_slippage_tolerance reference none (100, 200) (1000, 2000) ≡ ok tt
unfolding assert_slippage_tolerance
untolerated = refl
