-- ===== src/Pair/Query.antt =====
-- The queries of contracts/prismswap_pair/src/contract.rs.
pub mod Agreement
use prismswap_contracts.Base.{ok, err, ◌>>=◌, if◌then◌else◌, Bytes}
use prismswap_contracts.Asset.{StdResult, Asset, PairInfo, asset_eq}
use prismswap_contracts.Messages.{
  SimulationResponse, ReverseSimulationResponse, PoolResponse, PairQueryMsg, pair as pair_msg,
  pool as pool_msg, config as config_msg, simulation, reverse_simulation,
}
use prismswap_contracts.Querier.{query_pools, query_supply, query_fee_info}
use prismswap_contracts.Pair.Error.{PairResult, asset_mismatch}
use prismswap_contracts.Pair.State.{Config, load, try, Deps}
use prismswap_contracts.Pair.Swap.{compute_swap, compute_offer_amount}

unfoldable pub query_config : Deps → PairResult Config
query_config deps = load deps.storage

unfoldable pub query_pair_info : Deps → PairResult PairInfo
query_pair_info deps = do config ← load deps.storage; ok config.pair_info

unfoldable pub query_pool : Deps → PairResult PoolResponse
query_pool deps = do
  config ← load deps.storage
  assets ← try (query_pools deps.chain config.pair_info config.pair_info.contract_addr)
  total_share ← try (query_supply deps.chain config.pair_info.liquidity_token)
  ok (record { assets = assets; total_share = total_share })

-- The pool with the given asset, and the other one.
unfoldable pub find_pools : Asset → Asset × Asset → PairResult (Asset × Asset)
find_pools asset pools =
    if asset_eq asset.info pools.0.info
    then ok (pools.0, pools.1)
    else if asset_eq asset.info pools.1.info
    then ok (pools.1, pools.0)
    else err asset_mismatch

unfoldable pub query_simulation : Deps → Asset → PairResult SimulationResponse
query_simulation deps offer_asset = do
  config ← load deps.storage
  pools ← try (query_pools deps.chain config.pair_info config.pair_info.contract_addr)
  chosen ← find_pools offer_asset pools
  fee_info ← try (query_fee_info deps.chain config.factory config.pair_info.asset_infos)
  computed ←
      compute_swap deps.arith chosen.0.amount chosen.1.amount offer_asset.amount
        fee_info.fee_config.total_fee
  ok (record {
    return_amount = computed.0;
    spread_amount = computed.1;
    commission_amount = computed.2;
  })

unfoldable pub query_reverse_simulation : Deps → Asset → PairResult ReverseSimulationResponse
query_reverse_simulation deps ask_asset = do
  config ← load deps.storage
  pools ← try (query_pools deps.chain config.pair_info config.pair_info.contract_addr)
  chosen ← find_pools ask_asset pools
  fee_info ← try (query_fee_info deps.chain config.factory config.pair_info.asset_infos)
  computed ←
      compute_offer_amount deps.arith chosen.1.amount chosen.0.amount ask_asset.amount
        fee_info.fee_config.total_fee
  ok (record {
    offer_amount = computed.0;
    spread_amount = computed.1;
    commission_amount = computed.2;
  })

-- What a query answers, before it is encoded.
pub data PairAnswer : Type 0 where
  config_answer : Config → PairAnswer
  info_answer : PairInfo → PairAnswer
  pool_answer : PoolResponse → PairAnswer
  simulation_answer : SimulationResponse → PairAnswer
  reverse_answer : ReverseSimulationResponse → PairAnswer

-- `to_binary` at the answers is a parameter.
unfoldable pub query :
    (to_binary : PairAnswer → StdResult Bytes) → Deps → PairQueryMsg → PairResult Bytes
query to_binary deps config_msg = do res ← query_config deps; try (to_binary (config_answer res))
query to_binary deps pair_msg = do res ← query_pair_info deps; try (to_binary (info_answer res))
query to_binary deps pool_msg = do res ← query_pool deps; try (to_binary (pool_answer res))
query to_binary deps (simulation offer_asset) = do
  res ← query_simulation deps offer_asset
  try (to_binary (simulation_answer res))
query to_binary deps (reverse_simulation ask_asset) = do
  res ← query_reverse_simulation deps ask_asset
  try (to_binary (reverse_answer res))
