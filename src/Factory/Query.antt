-- ===== src/Factory/Query.antt =====
-- The queries of contracts/prismswap_factory/src/contract.rs, with `read_pairs` and
-- `calc_range_start` of state.rs. A response with one list is that list.
pub mod Pages
use prismswap_contracts.Base.{
  ℕ, min, Option, none, some, List, [], ◌∷◌, ◌++◌, map, ok, ◌>>=◌, ok_or, unwrap_or, Bytes, take,
}
use prismswap_contracts.Asset.{Addr, StdResult, not_found, AssetInfo, PairInfo}
use prismswap_contracts.Messages.{
  FeeConfig, FeeInfoResponse, FactoryQueryMsg, config as config_msg, pair as pair_msg,
  pairs as pairs_msg, fee_info as fee_info_msg, pair_config as pair_config_msg,
  pairs_config as pairs_config_msg,
}
use prismswap_contracts.Chain.{Chain}
use prismswap_contracts.Factory.Fees.{default_fees}
use prismswap_contracts.Factory.Pairs.{PairConfig, Pairs, lookup, pair_key}
use prismswap_contracts.Factory.State.{Config, load, Deps}

abbrev pub max_limit : ℕ
max_limit = 30

abbrev pub default_limit : ℕ
default_limit = 10

pub record PairConfigResponse : Type 0 where
  pub pair_info : PairInfo
  pub fee_config : FeeConfig

unfoldable pub query_config : Deps → StdResult Config
query_config deps = load deps.storage.config

-- contracts/prismswap_factory/src/querier.rs
unfoldable pub query_pair_info : Chain → Addr → StdResult PairInfo
query_pair_info c pair_contract = c.pair_info pair_contract

unfoldable pub query_pair : Deps → AssetInfo × AssetInfo → StdResult PairInfo
query_pair deps asset_infos = do
  pair_config ← ok_or (lookup (pair_key asset_infos) deps.storage.pairs) not_found
  query_pair_info deps.chain pair_config.pair_address

-- The fees of a pair, the default ones where none is registered.
unfoldable pub fees_of : Option PairConfig → FeeConfig
fees_of (some config) = config.fee_config
fees_of none = default_fees

unfoldable pub query_fee_config : Deps → AssetInfo × AssetInfo → StdResult FeeInfoResponse
query_fee_config deps asset_infos = do
  config ← load deps.storage.config
  ok (record {
    collector = config.collector;
    fee_config = fees_of (lookup (pair_key asset_infos) deps.storage.pairs);
  })

unfoldable pub query_pair_config : Deps → AssetInfo × AssetInfo → StdResult PairConfigResponse
query_pair_config deps asset_infos = do
  pair_config ← ok_or (lookup (pair_key asset_infos) deps.storage.pairs) not_found
  pair_info ← query_pair_info deps.chain pair_config.pair_address
  ok (record { pair_info = pair_info; fee_config = pair_config.fee_config })

-- The key after which a page starts: that of the pair, with a byte appended.
unfoldable pub calc_range_start : Option (AssetInfo × AssetInfo) → Option Bytes
calc_range_start (some asset_infos) = some (pair_key asset_infos ++ 1 ∷ [])
calc_range_start none = none

-- `range` is `PAIRS.range(storage, start, None, Order::Ascending)`, with an exclusive bound.
unfoldable pub read_pairs :
    (range : Pairs → Option Bytes → Pairs)
    → Pairs
    → Option (AssetInfo × AssetInfo)
    → Option ℕ
    → List PairConfig
read_pairs range pairs start_after limit =
    map (λ item. item.1)
      (take (min (unwrap_or limit default_limit) max_limit)
        (range pairs (calc_range_start start_after)))

-- `.collect::<StdResult<Vec<_>>>()`: the first error ends it.
unfoldable pub collect :
    {A : Type 0} → (PairConfig → StdResult A) → List PairConfig → StdResult (List A)
collect f [] = ok []
collect f (p ∷ ps) = do x ← f p; xs ← collect f ps; ok (x ∷ xs)

unfoldable pub query_pairs :
    (Pairs → Option Bytes → Pairs)
    → Deps
    → Option (AssetInfo × AssetInfo)
    → Option ℕ
    → StdResult (List PairInfo)
query_pairs range deps start_after limit =
    collect (λ pair. query_pair_info deps.chain pair.pair_address)
      (read_pairs range deps.storage.pairs start_after limit)

unfoldable pub query_pairs_config :
    (Pairs → Option Bytes → Pairs)
    → Deps
    → Option (AssetInfo × AssetInfo)
    → Option ℕ
    → StdResult (List PairConfigResponse)
query_pairs_config range deps start_after limit =
    collect
      (λ pair. do
        pair_info ← query_pair_info deps.chain pair.pair_address
        ok (record { pair_info = pair_info; fee_config = pair.fee_config }))
      (read_pairs range deps.storage.pairs start_after limit)

-- What a query answers, before it is encoded.
pub data FactoryAnswer : Type 0 where
  config_answer : Config → FactoryAnswer
  pair_answer : PairInfo → FactoryAnswer
  pairs_answer : List PairInfo → FactoryAnswer
  fee_answer : FeeInfoResponse → FactoryAnswer
  pair_config_answer : PairConfigResponse → FactoryAnswer
  pairs_config_answer : List PairConfigResponse → FactoryAnswer

-- `to_binary` at the answers is a parameter.
unfoldable pub query :
    (Pairs → Option Bytes → Pairs)
    → (to_binary : FactoryAnswer → StdResult Bytes) → Deps
    → FactoryQueryMsg
    → StdResult Bytes
query range to_binary deps config_msg = do res ← query_config deps; to_binary (config_answer res)
query range to_binary deps (pair_msg asset_infos) = do
  res ← query_pair deps asset_infos
  to_binary (pair_answer res)
query range to_binary deps (pairs_msg start_after limit) = do
  res ← query_pairs range deps start_after limit
  to_binary (pairs_answer res)
query range to_binary deps (fee_info_msg asset_infos) = do
  res ← query_fee_config deps asset_infos
  to_binary (fee_answer res)
query range to_binary deps (pair_config_msg asset_infos) = do
  res ← query_pair_config deps asset_infos
  to_binary (pair_config_answer res)
query range to_binary deps (pairs_config_msg start_after limit) = do
  res ← query_pairs_config range deps start_after limit
  to_binary (pairs_config_answer res)
