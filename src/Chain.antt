-- ===== src/Chain.antt =====
-- The chain as a contract sees it: address validation, encodings, and the answers of the bank and of
-- other contracts. The chain is not in the repository, so it is a record that every definition takes;
-- that a factory or a pair answers by its own query function is a hypothesis where it matters. A query
-- encodes its message itself, and its answer may be an error.
use prismswap_contracts.Base.{ℕ, Option, List, Bytes}
use prismswap_contracts.Asset.{Addr, StdResult, AssetInfo, Asset, Coin, PairInfo}
use prismswap_contracts.Messages.{
  FeeInfoResponse, PairHookMsg, Payload, CosmosMsg, FactoryConfigResponse, SimulationResponse,
  ReverseSimulationResponse,
}

-- `TokenInfoResponse` of cw20, as far as it is read.
pub record TokenInfo : Type 0 where
  pub symbol : Bytes
  pub total_supply : ℕ

pub record Chain : Type 0 where
  -- `Api::addr_validate`, `to_binary`, and `from_binary` at `Cw20HookMsg`
  pub addr_validate : Bytes → StdResult Addr
  pub to_binary : Payload → StdResult Bytes
  pub from_binary : Bytes → StdResult PairHookMsg
  -- `BankQuery::Balance`, `Cw20QueryMsg::Balance` and `Cw20QueryMsg::TokenInfo`
  pub bank_balance : (account : Addr) (denom : Bytes) → StdResult ℕ
  pub cw20_balance : (token account : Addr) → StdResult ℕ
  pub token_info : (token : Addr) → StdResult TokenInfo
  -- `BankQuery::AllBalances`
  pub all_balances : (account : Addr) → StdResult (List Coin)
  -- `FeeInfo`, `Config`, `Pair` and `Pairs` of the factory's `QueryMsg`
  pub fee_info : (factory : Addr) → AssetInfo × AssetInfo → StdResult FeeInfoResponse
  pub factory_config : (factory : Addr) → StdResult FactoryConfigResponse
  pub factory_pair : (factory : Addr) → AssetInfo × AssetInfo → StdResult PairInfo
  pub factory_pairs :
      (factory : Addr) (start_after : Option (AssetInfo × AssetInfo)) (limit : Option ℕ)
      → StdResult (List PairInfo)
  -- `Pair`, `Simulation` and `ReverseSimulation` of a pair's `QueryMsg`
  pub pair_info : (pair : Addr) → StdResult PairInfo
  pub simulation : (pair : Addr) (offer_asset : Asset) → StdResult SimulationResponse
  pub reverse_simulation : (pair : Addr) (ask_asset : Asset) → StdResult ReverseSimulationResponse
  -- `Asset::transfer_msg` of cw_asset
  pub transfer_msg : Asset → (to : Addr) → StdResult CosmosMsg
  -- `str::to_uppercase`, by Unicode
  pub to_uppercase : Bytes → Bytes
