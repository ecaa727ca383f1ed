-- ===== src/Querier.antt =====
-- packages/prismswap/src/querier.rs and the methods of asset.rs that query. The encoding of a query
-- message does not fail; its answer can.
use prismswap_contracts.Base.{ℕ, Option, List, ok, err, panic, ◌>>=◌, Bytes}
use prismswap_contracts.Asset.{Addr, StdResult, AssetInfo, cw20, native, Asset, Coin, PairInfo}
use prismswap_contracts.Messages.{
  FeeInfoResponse, FactoryConfigResponse, SimulationResponse, ReverseSimulationResponse,
}
use prismswap_contracts.Chain.{Chain}

-- A failed balance query counts as zero.
unfoldable pub query_token_balance : Chain → Addr → Addr → StdResult ℕ
query_token_balance c contract_addr account_addr =
    elim (c.cw20_balance contract_addr account_addr) [ ok n ↦ ok n | err e ↦ ok 0 | panic ↦ panic ]

unfoldable pub query_balance : Chain → Addr → Bytes → StdResult ℕ
query_balance c account_addr denom = c.bank_balance account_addr denom

unfoldable pub query_token_symbol : Chain → Addr → StdResult Bytes
query_token_symbol c contract_addr = do res ← c.token_info contract_addr; ok res.symbol

unfoldable pub query_supply : Chain → Addr → StdResult ℕ
query_supply c contract_addr = do res ← c.token_info contract_addr; ok res.total_supply

unfoldable pub query_fee_info : Chain → Addr → AssetInfo × AssetInfo → StdResult FeeInfoResponse
query_fee_info c factory_contract asset_infos = c.fee_info factory_contract asset_infos

unfoldable pub query_all_balances : Chain → Addr → StdResult (List Coin)
query_all_balances c account_addr = c.all_balances account_addr

unfoldable pub query_factory_config : Chain → Addr → StdResult FactoryConfigResponse
query_factory_config c factory_contract = c.factory_config factory_contract

unfoldable pub query_pair_info : Chain → Addr → AssetInfo × AssetInfo → StdResult PairInfo
query_pair_info c factory_contract asset_infos = c.factory_pair factory_contract asset_infos

unfoldable pub query_pairs_info :
    Chain → Addr → Option (AssetInfo × AssetInfo) → Option ℕ → StdResult (List PairInfo)
query_pairs_info c factory_contract start_after limit =
    c.factory_pairs factory_contract start_after limit

unfoldable pub simulate : Chain → Addr → Asset → StdResult SimulationResponse
simulate c pair_contract offer_asset = c.simulation pair_contract offer_asset

unfoldable pub reverse_simulate : Chain → Addr → Asset → StdResult ReverseSimulationResponse
reverse_simulate c pair_contract ask_asset = c.reverse_simulation pair_contract ask_asset

-- `AssetInfo::query_pool`
unfoldable pub query_pool : Chain → AssetInfo → Addr → StdResult ℕ
unfolding query_token_balance query_balance
query_pool c (cw20 contract_addr) pool_addr = query_token_balance c contract_addr pool_addr
query_pool c (native denom) pool_addr = query_balance c pool_addr denom

-- `PairInfo::query_pools`
unfoldable pub query_pools : Chain → PairInfo → Addr → StdResult (Asset × Asset)
query_pools c p contract_addr = do
  first ← query_pool c p.asset_infos.0 contract_addr
  second ← query_pool c p.asset_infos.1 contract_addr
  ok (
    record { info = p.asset_infos.0; amount = first },
    record { info = p.asset_infos.1; amount = second },
  )

-- `AssetInfo::check`
unfoldable pub check : Chain → AssetInfo → StdResult (Unit {0})
check c (cw20 addr) = do checked ← c.addr_validate addr; ok tt
check c (native denom) = ok tt
