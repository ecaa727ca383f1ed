-- ===== src/Router/State.antt =====
-- packages/prismswap/src/router.rs and contracts/prismswap_router/src/state.rs, with what every handler
-- of the router is given.
use prismswap_contracts.Base.{ℕ, Option, none, some, List, [], ok, err, Bytes, String}
use prismswap_contracts.Numbers.{Arith}
use prismswap_contracts.Asset.{Addr, StdResult, not_found, AssetInfo, native, Coin}
use prismswap_contracts.Messages.{Cw20ReceiveMsg, CosmosMsg, Response}
use prismswap_contracts.Chain.{Chain}

abbrev pub max_swap_operations : ℕ
max_swap_operations = 50

pub data SwapOperation : Type 0 where
  native_swap : (offer_denom ask_denom : Bytes) → SwapOperation
  prism_swap : (offer_asset_info ask_asset_info : AssetInfo) → SwapOperation

unfoldable pub get_target_asset_info : SwapOperation → AssetInfo
get_target_asset_info (native_swap offer_denom ask_denom) = native ask_denom
get_target_asset_info (prism_swap offer_asset_info ask_asset_info) = ask_asset_info

pub data RouterExecuteMsg : Type 0 where
  receive : Cw20ReceiveMsg → RouterExecuteMsg
  swap_operations :
      (operations : List SwapOperation) (minimum_receive : Option ℕ) (to : Option Addr)
      → RouterExecuteMsg
  swap_operation : (operation : SwapOperation) (to : Option Addr) → RouterExecuteMsg
  assert_minimum :
      (asset_info : AssetInfo) (prev_balance minimum_receive : ℕ) (receiver : Addr)
      → RouterExecuteMsg

-- `QueryMsg` of the router.
pub data RouterQueryMsg : Type 0 where
  config : RouterQueryMsg
  simulate_operations : (offer_amount : ℕ) (operations : List SwapOperation) → RouterQueryMsg

-- `Cw20HookMsg` of the router.
pub record RouterHookMsg : Type 0 where
  pub operations : List SwapOperation
  pub minimum_receive : Option ℕ
  pub to : Option Addr

pub record Config : Type 0 where
  pub factory : Addr

-- The item `CONFIG`; `none` before it is first saved.
abbrev pub Storage : Type 0
Storage = Option Config

unfoldable pub load : Storage → StdResult Config
load (some stored) = ok stored
load none = err not_found

-- What a handler is given, and what it calls outside the repository.
pub record Deps : Type 0 where
  pub arith : Arith
  pub chain : Chain
  pub contract : Addr
  pub storage : Storage
  -- the swap query of the chain, of which the amount is read
  pub query_swap : (offer : Coin) (ask_denom : Bytes) → StdResult ℕ
  -- `create_swap_send_msg` and `create_swap_msg` of terra_cosmwasm
  pub create_swap_send_msg : (to : Addr) (offer : Coin) (ask_denom : Bytes) → CosmosMsg
  pub create_swap_msg : (offer : Coin) (ask_denom : Bytes) → CosmosMsg
  -- `to_binary` at `ExecuteMsg` and `from_binary` at `Cw20HookMsg`
  pub encode : RouterExecuteMsg → StdResult Bytes
  pub decode : Bytes → StdResult RouterHookMsg
  -- `AssetInfo::to_string` of cw_asset, and the text of the failed assertion on the amount received
  pub asset_text : AssetInfo → Bytes
  pub below_minimum_text : (minimum_receive swap_amount : ℕ) → String

-- `Response::new().add_messages(…)`
abbrev pub send_all : List CosmosMsg → Response
send_all messages = record { messages = messages; submessage = none; attributes = [] }
