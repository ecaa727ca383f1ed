-- ===== src/Router/Contract.antt =====
-- contracts/prismswap_router/src/contract.rs.
pub mod Outputs
pub mod Assertions
pub mod Returns
use prismswap_contracts.Base.{
  ℕ, suc, ◌+◌, not, Option, none, some, List, [], ◌∷◌, ◌++◌, ok, err, Bytes, ◌>>=◌, ◌>>◌, ensure,
  must, ok_or, unwrap_or, bytes_eq, length, ltb, ◌==◌, if◌then◌else◌, Bool, true, false,
}
use prismswap_contracts.Asset.{
  Addr, StdResult, generic_err, overflow, AssetInfo, native, Coin, MessageInfo,
}
use prismswap_contracts.Messages.{Cw20ReceiveMsg, CosmosMsg, wasm_execute, Response}
use prismswap_contracts.Chain.{Chain}
use prismswap_contracts.Querier.{query_pair_info, query_pool, check}
use prismswap_contracts.Router.State.{
  max_swap_operations, SwapOperation, native_swap, prism_swap, get_target_asset_info,
  RouterExecuteMsg, RouterQueryMsg, config as config_msg, simulate_operations, receive,
  swap_operations, swap_operation, assert_minimum, Config, Storage, load, Deps, send_all,
}
use prismswap_contracts.Router.Operations.{execute_swap_operation}

unfoldable pub instantiate : (factory : Addr) → StdResult (Response × Storage)
instantiate factory = ok (send_all [], some (record { factory = factory }))

unfoldable pub offered : SwapOperation → AssetInfo
offered (native_swap offer_denom ask_denom) = native offer_denom
offered (prism_swap offer_asset_info ask_asset_info) = offer_asset_info

-- `ask_asset_map.remove(key)` on the keys of the map.
unfoldable pub remove_key : Bytes → List Bytes → List Bytes
remove_key key [] = []
remove_key key (k ∷ keys) =
    let rest = remove_key key keys in if bytes_eq k key then rest else k ∷ rest

-- `ask_asset_map.insert(key, true)`
unfoldable pub insert_key : Bytes → List Bytes → List Bytes
insert_key key [] = key ∷ []
insert_key key (k ∷ keys) =
    let rest = insert_key key keys in if bytes_eq k key then k ∷ keys else k ∷ rest

-- The loop: the keys of the map after the operations.
unfoldable pub ask_assets : (AssetInfo → Bytes) → List SwapOperation → List Bytes → List Bytes
ask_assets to_string [] keys = keys
ask_assets to_string (operation ∷ operations) keys = ask_assets to_string operations (
    insert_key (to_string (get_target_asset_info operation))
      (remove_key (to_string (offered operation)) keys))

unfoldable pub assert_operations : (AssetInfo → Bytes) → List SwapOperation → StdResult (Unit {0})
assert_operations to_string operations =
    ensure (length (ask_assets to_string operations []) == 1)
      (generic_err "invalid operations; multiple output token")

-- `operations.last()`
unfoldable pub last : List SwapOperation → Option SwapOperation
last [] = none
last (operation ∷ []) = some operation
last (operation ∷ next ∷ operations) = last (next ∷ operations)

-- A message of the router to itself for every operation; the one whose index is the number of all
-- operations names the receiver.
unfoldable pub operation_messages :
    Deps → Addr → (operations_len index : ℕ) → List SwapOperation → StdResult (List CosmosMsg)
operation_messages deps to operations_len index [] = ok []
operation_messages deps to operations_len index (operation ∷ operations) = do
  msg ←
      deps.encode
        (swap_operation operation (if (index + 1) == operations_len then some to else none))
  messages ← operation_messages deps to operations_len (index + 1) operations
  ok (wasm_execute deps.contract msg [] ∷ messages)

-- The message that checks the balance of the receiver at the end.
unfoldable pub minimum_message : Deps → Option ℕ → AssetInfo → Addr → StdResult (List CosmosMsg)
minimum_message deps none target_asset_info to = ok []
minimum_message deps (some minimum_receive) target_asset_info to = do
  receiver_balance ← query_pool deps.chain target_asset_info to
  msg ← deps.encode (assert_minimum target_asset_info receiver_balance minimum_receive to)
  ok (wasm_execute deps.contract msg [] ∷ [])

unfoldable pub execute_swap_operations :
    Deps → Addr → List SwapOperation → Option ℕ → Option Addr → StdResult Response
execute_swap_operations deps sender operations minimum_receive to = do
  ensure (not (length operations == 0)) (generic_err "must provide operations")
  ensure (not (ltb max_swap_operations (length operations)))
      (generic_err "exceeded swap operations limit")
  assert_operations deps.asset_text operations
  let to = unwrap_or to sender
  last_operation ← must (last operations)
  let target_asset_info = get_target_asset_info last_operation
  messages ← operation_messages deps to (length operations) 0 operations
  assertion ← minimum_message deps minimum_receive target_asset_info to
  ok (send_all (messages ++ assertion))

unfoldable pub assert_minimum_receive : Deps → AssetInfo → ℕ → ℕ → Addr → StdResult Response
assert_minimum_receive deps asset_info prev_balance minimum_receive receiver = do
  receiver_balance ← query_pool deps.chain asset_info receiver
  swap_amount ← ok_or (deps.arith.checked_sub receiver_balance prev_balance) overflow
  ensure (not (ltb swap_amount minimum_receive))
      (generic_err (deps.below_minimum_text minimum_receive swap_amount))
  ok (send_all [])

unfoldable pub check_operation : Chain → SwapOperation → StdResult (Unit {0})
check_operation c (native_swap offer_denom ask_denom) = ok tt
check_operation c (prism_swap offer_asset_info ask_asset_info) = do
  check c offer_asset_info
  check c ask_asset_info

unfoldable pub check_operations : Chain → List SwapOperation → StdResult (Unit {0})
check_operations c [] = ok tt
check_operations c (operation ∷ operations) = do
  check_operation c operation
  check_operations c operations

unfoldable pub receive_cw20 : Deps → Cw20ReceiveMsg → StdResult Response
receive_cw20 deps cw20_msg = do
  sender ← deps.chain.addr_validate cw20_msg.sender
  hook ← deps.decode cw20_msg.msg
  check_operations deps.chain hook.operations
  execute_swap_operations deps sender hook.operations hook.minimum_receive hook.to

-- No message that is executed writes to the storage.
unfoldable pub execute : Deps → MessageInfo → RouterExecuteMsg → StdResult Response
execute deps info (receive msg) = receive_cw20 deps msg
execute deps info (swap_operations operations minimum_receive to) = do
  check_operations deps.chain operations
  execute_swap_operations deps info.sender operations minimum_receive to
execute deps info (swap_operation operation to) = execute_swap_operation deps info operation to
execute deps info (assert_minimum asset_info prev_balance minimum_receive receiver) = do
  check deps.chain asset_info
  assert_minimum_receive deps asset_info prev_balance minimum_receive receiver

unfoldable pub query_config : Deps → StdResult Config
query_config deps = load deps.storage

-- One step of the simulation: what the operation returns for the amount.
unfoldable pub simulate_operation : Deps → Addr → SwapOperation → ℕ → StdResult ℕ
simulate_operation deps factory (native_swap offer_denom ask_denom) offer_amount =
    deps.query_swap (record { denom = offer_denom; amount = offer_amount }) ask_denom
simulate_operation deps factory (prism_swap offer_asset_info ask_asset_info) offer_amount = do
  pair_info ← query_pair_info deps.chain factory (offer_asset_info, ask_asset_info)
  res ←
      deps.chain.simulation pair_info.contract_addr
        (record { info = offer_asset_info; amount = offer_amount })
  ok res.return_amount

unfoldable pub simulate_each : Deps → Addr → List SwapOperation → ℕ → StdResult ℕ
simulate_each deps factory [] offer_amount = ok offer_amount
simulate_each deps factory (operation ∷ operations) offer_amount = do
  returned ← simulate_operation deps factory operation offer_amount
  simulate_each deps factory operations returned

unfoldable pub simulate_swap_operations : Deps → ℕ → List SwapOperation → StdResult ℕ
simulate_swap_operations deps offer_amount operations = do
  config ← load deps.storage
  ensure (not (length operations == 0)) (generic_err "must provide operations")
  ensure (not (ltb max_swap_operations (length operations)))
      (generic_err "exceeded swap operations limit")
  simulate_each deps config.factory operations offer_amount

-- What a query answers, before it is encoded.
pub data RouterAnswer : Type 0 where
  config_answer : Config → RouterAnswer
  amount_answer : (amount : ℕ) → RouterAnswer

-- `to_binary` at the answers is a parameter.
unfoldable pub query :
    (to_binary : RouterAnswer → StdResult Bytes) → Deps → RouterQueryMsg → StdResult Bytes
query to_binary deps config_msg = do res ← query_config deps; to_binary (config_answer res)
query to_binary deps (simulate_operations offer_amount operations) = do
  res ← simulate_swap_operations deps offer_amount operations
  to_binary (amount_answer res)
