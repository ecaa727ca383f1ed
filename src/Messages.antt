-- ===== src/Messages.antt =====
-- The messages that the contracts exchange: packages/prismswap/src/factory.rs, pair.rs, token.rs
-- and router.rs, with the parts of cosmwasm_std and cw20 that they are made of. A `Binary` is its
-- bytes; a `String` that nothing has checked is `Bytes`, an address that was checked `Addr`. The
-- attributes of a response are kept as the values that the source formats.
use prismswap_contracts.Base.{ℕ, String, Option, List, Bytes}
use prismswap_contracts.Asset.{Addr, AssetInfo, Asset, Coin}

-- `FeeConfig`: two decimals, in atomics.
pub record FeeConfig : Type 0 where
  pub total_fee : ℕ
  pub protocol_fee : ℕ

pub record FeeInfoResponse : Type 0 where
  pub fee_config : FeeConfig
  pub collector : Addr

pub record Cw20ReceiveMsg : Type 0 where
  pub sender : Bytes
  pub amount : ℕ
  pub msg : Bytes

-- The token operations that the contracts send.
pub data Cw20ExecuteMsg : Type 0 where
  transfer : (recipient : Bytes) (amount : ℕ) → Cw20ExecuteMsg
  transfer_from : (owner recipient : Bytes) (amount : ℕ) → Cw20ExecuteMsg
  mint : (recipient : Bytes) (amount : ℕ) → Cw20ExecuteMsg
  burn : (amount : ℕ) → Cw20ExecuteMsg
  send : (contract : Bytes) (amount : ℕ) (msg : Bytes) → Cw20ExecuteMsg

-- `ExecuteMsg` of the pair; decimals in atomics.
pub data PairExecuteMsg : Type 0 where
  receive : Cw20ReceiveMsg → PairExecuteMsg
  provide_liquidity :
      (assets : Asset × Asset) (slippage_tolerance : Option ℕ) (receiver : Option Bytes)
      → PairExecuteMsg
  swap :
      (offer_asset : Asset) (belief_price max_spread : Option ℕ) (to : Option Bytes)
      → PairExecuteMsg

-- `Cw20HookMsg` of the pair.
pub data PairHookMsg : Type 0 where
  hook_swap : (belief_price max_spread : Option ℕ) (to : Option Bytes) → PairHookMsg
  withdraw_liquidity : PairHookMsg

pub record PairInstantiateMsg : Type 0 where
  pub asset_infos : AssetInfo × AssetInfo
  pub token_code_id : ℕ
  pub factory : Addr

pub record MinterResponse : Type 0 where
  pub minter : Bytes
  pub cap : Option ℕ

pub record Cw20Coin : Type 0 where
  pub address : Bytes
  pub amount : ℕ

pub record TokenInstantiateMsg : Type 0 where
  pub name : Bytes
  pub symbol : Bytes
  pub decimals : ℕ
  pub initial_balances : List Cw20Coin
  pub mint : Option MinterResponse

-- What `to_binary` is called on.
pub data Payload : Type 0 where
  cw20_execute : Cw20ExecuteMsg → Payload
  pair_execute : PairExecuteMsg → Payload
  pair_instantiate : PairInstantiateMsg → Payload
  token_instantiate : TokenInstantiateMsg → Payload

pub data CosmosMsg : Type 0 where
  wasm_execute : (contract_addr : Bytes) (msg : Bytes) (funds : List Coin) → CosmosMsg
  wasm_instantiate :
      (code_id : ℕ) (msg : Bytes) (funds : List Coin) (admin : Option Bytes) (label : String)
      → CosmosMsg
  bank_send : (to_address : Bytes) (amount : List Coin) → CosmosMsg

-- A value that an attribute shows.
pub data Shown : Type 0 where
  text : String → Shown
  addr : Bytes → Shown
  number : ℕ → Shown
  info : AssetInfo → Shown
  asset_pair : Asset × Asset → Shown
  info_pair : AssetInfo × AssetInfo → Shown

-- A submessage has an id, and is answered by `reply` if it succeeds.
pub record Response : Type 0 where
  pub messages : List CosmosMsg
  pub submessage : Option (ℕ × CosmosMsg)
  pub attributes : List (String × Shown)

pub record SimulationResponse : Type 0 where
  pub return_amount : ℕ
  pub spread_amount : ℕ
  pub commission_amount : ℕ

pub record ReverseSimulationResponse : Type 0 where
  pub offer_amount : ℕ
  pub spread_amount : ℕ
  pub commission_amount : ℕ

-- `QueryMsg` of the pair.
pub data PairQueryMsg : Type 0 where
  pair : PairQueryMsg
  pool : PairQueryMsg
  config : PairQueryMsg
  simulation : (offer_asset : Asset) → PairQueryMsg
  reverse_simulation : (ask_asset : Asset) → PairQueryMsg

-- `QueryMsg` of the factory.
pub data FactoryQueryMsg : Type 0 where
  config : FactoryQueryMsg
  pair : AssetInfo × AssetInfo → FactoryQueryMsg
  pair_config : AssetInfo × AssetInfo → FactoryQueryMsg
  pairs : (start_after : Option (AssetInfo × AssetInfo)) (limit : Option ℕ) → FactoryQueryMsg
  pairs_config : (start_after : Option (AssetInfo × AssetInfo)) (limit : Option ℕ) → FactoryQueryMsg
  fee_info : AssetInfo × AssetInfo → FactoryQueryMsg

-- `ConfigResponse` of the factory.
pub record FactoryConfigResponse : Type 0 where
  pub owner : Addr
  pub token_code_id : ℕ
  pub pair_code_id : ℕ
  pub collector : Addr
  pub pairs_admin : Addr

pub record PoolResponse : Type 0 where
  pub assets : Asset × Asset
  pub total_share : ℕ
