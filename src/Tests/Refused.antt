-- ===== src/Tests/Refused.antt =====
-- An asset that is not of the pair.
use prismswap_contracts.Base.{
  ℕ, ◌≡◌, ◌≢◌, refl, ap, arith, Option, [], ◌∷◌, ok, err, panic, ascii, bytes_eq, Bytes,
}
use prismswap_contracts.Asset.{
  Addr, AssetInfo, cw20, native, Asset, MessageInfo, find_coin, assert_sent_native_token_balance,
}
use prismswap_contracts.Querier.{query_pool, query_balance, query_token_balance}
use prismswap_contracts.Pair.Error.{asset_mismatch}
use prismswap_contracts.Pair.Trade.{swap}
use prismswap_contracts.Pair.Liquidity.{provide_liquidity}
use prismswap_contracts.Pair.Query.{query_simulation, query_reverse_simulation}
use prismswap_contracts.Pair.Foreign.{foreign_refused}
use prismswap_contracts.Tests.Pool.{load_run}
use prismswap_contracts.Tests.{
  alice, pair_address, coin_info, token_info, config, chain, pair_deps, make_coin, token,
}

abbrev luna : Asset
luna = record { info = native (ascii "uluna"); amount = 5 }

abbrev with_luna : MessageInfo
with_luna = record { sender = alice; funds = make_coin (ascii "uluna") 5 ∷ [] }

luna_sent : assert_sent_native_token_balance luna with_luna ≡ ok tt
unfolding assert_sent_native_token_balance find_coin bytes_eq
luna_sent = refl

token_unsent : assert_sent_native_token_balance (token 7) with_luna ≡ ok tt
unfolding assert_sent_native_token_balance
token_unsent = refl

coins_held : query_pool (chain 1100 2000 100) coin_info pair_address ≡ ok 1100
unfolding query_pool query_balance
coins_held = refl

tokens_held : query_pool (chain 1100 2000 100) token_info pair_address ≡ ok 2000
unfolding query_pool query_token_balance
tokens_held = refl

-- The second byte of the name.
abbrev second_byte : AssetInfo → ℕ
second_byte (native (a ∷ b ∷ bs)) = b
second_byte (native bs) = 0
second_byte (cw20 bs) = 0

coin_is_not_luna : coin_info ≢ native (ascii "uluna")
coin_is_not_luna e = omega (arith, ap second_byte e)

foreign_refused_example :
    ((sender : Addr) (belief_price max_spread : Option ℕ) (to : Option Addr)
      → swap (pair_deps 1100 2000 100) with_luna sender luna belief_price max_spread to
        ≡ err asset_mismatch)
    × (query_simulation (pair_deps 1100 2000 100) luna ≡ err asset_mismatch)
    × (query_reverse_simulation (pair_deps 1100 2000 100) luna ≡ err asset_mismatch)
    × ((tolerance : Option ℕ) (receiver : Option Bytes)
        → (provide_liquidity (pair_deps 1100 2000 100) with_luna (luna, token 7) tolerance receiver
            ≡ panic)
          × (provide_liquidity
                (pair_deps 1100 2000 100)
                with_luna
                (token 7, luna)
                tolerance
                receiver
              ≡ panic))
foreign_refused_example =
    foreign_refused (pair_deps 1100 2000 100) config (1100, 2000) load_run refl coins_held
      tokens_held luna coin_is_not_luna (λ e. cc) with_luna (token 7) (λ e. cc) luna_sent
      token_unsent
