-- ===== src/Router/Contract/Returns.antt =====
-- How the calls of contracts/prismswap_router/src/contract.rs and operations.rs end: with a value or an
-- error, or by an abort.
use prismswap_contracts.Base.{
  ℕ, ◌+◌, ◌≡◌, refl, Option, none, some, List, [], ◌∷◌, ok, err, panic, ◌≢◌, Bytes, Outcome,
  Returns, ok-Returns, err-Returns, >>=-Returns, must-Returns, ok_or-Returns, ensure-Returns,
}
use prismswap_contracts.Asset.{
  Addr, StdError, StdResult, AssetInfo, cw20, native, Asset, Coin, MessageInfo,
}
use prismswap_contracts.Messages.{Payload}
use prismswap_contracts.Querier.{
  query_token_balance, query_balance, query_pool, query_pair_info, check,
}
use prismswap_contracts.Router.State.{
  SwapOperation, native_swap, prism_swap, RouterExecuteMsg, RouterQueryMsg, config as config_msg,
  simulate_operations, receive, swap_operations, swap_operation, assert_minimum, Storage, load,
  Deps,
}
use prismswap_contracts.Router.Operations.{into_swap_msg, swap_message, execute_swap_operation}
use prismswap_contracts.Router.Contract.{
  assert_operations, last, operation_messages, minimum_message, execute_swap_operations,
  assert_minimum_receive, check_operation, check_operations, receive_cw20, execute, query_config,
  simulate_operation, simulate_each, simulate_swap_operations, RouterAnswer, query,
}

-- What the router calls returns, with a value or with an error.
pub record IsAnswering (deps : Deps) : Type 0 where
  pub validates : (a : Bytes) → Returns (deps.chain.addr_validate a)
  pub encodes : (msg : Payload) → Returns (deps.chain.to_binary msg)
  pub banks : (account : Addr) (denom : Bytes) → Returns (deps.chain.bank_balance account denom)
  pub tokens : (token account : Addr) → Returns (deps.chain.cw20_balance token account)
  pub pairs :
      (factory : Addr) (infos : AssetInfo × AssetInfo)
      → Returns (deps.chain.factory_pair factory infos)
  pub simulates : (pair : Addr) (asset : Asset) → Returns (deps.chain.simulation pair asset)
  pub swaps : (offer : Coin) (ask_denom : Bytes) → Returns (deps.query_swap offer ask_denom)
  pub sends : (msg : RouterExecuteMsg) → Returns (deps.encode msg)
  pub decodes : (bytes : Bytes) → Returns (deps.decode bytes)

load-Returns : (s : Storage) → Returns (load s)
unfolding load
load-Returns (some c) = ok-Returns c
load-Returns none = err-Returns _

-- A list with an element has a last one.
last-some :
    (operation : SwapOperation) (operations : List SwapOperation)
    → (l : SwapOperation) × (last (operation ∷ operations) ≡ some l)
unfolding last
last-some operation [] = (operation, refl)
last-some operation (next ∷ operations) = last-some next operations

-- A failed balance query is a zero.
balance-Returns :
    (m : Outcome StdError ℕ)
    → Returns m
    → Returns {E = StdError} (elim m [ ok n ↦ ok n | err e ↦ ok 0 | panic ↦ panic ])
balance-Returns (ok n) r = ok-Returns n
balance-Returns (err e) r = ok-Returns 0
balance-Returns panic r = absurd (r refl)

module _ (deps : Deps) (answers : IsAnswering deps) where
  open answers use {validates, encodes, banks, tokens, pairs, simulates, swaps, sends, decodes}

  query_pool-Returns : (a : AssetInfo) (account : Addr) → Returns (query_pool deps.chain a account)
  unfolding query_pool query_token_balance query_balance
  query_pool-Returns (native denom) account = banks account denom
  query_pool-Returns (cw20 token) account =
      balance-Returns (deps.chain.cw20_balance token account) (tokens token account)

  check-Returns : (a : AssetInfo) → Returns (check deps.chain a)
  unfolding check
  check-Returns (cw20 token) = >>=-Returns _ _ (validates token) λ a e. ok-Returns tt
  check-Returns (native denom) = ok-Returns tt

  into_swap_msg-Returns :
      (i : AssetInfo) (amount : ℕ) (pair : Addr) (max_spread : Option ℕ) (to : Option Addr)
      → Returns (into_swap_msg deps.chain (record { info = i; amount = amount }) pair max_spread to)
  unfolding into_swap_msg
  into_swap_msg-Returns (native denom) amount pair max_spread to =
      >>=-Returns _ _ (encodes _) λ a e. ok-Returns _
  into_swap_msg-Returns (cw20 token) amount pair max_spread to =
      >>=-Returns _ _ (encodes _) λ a e. >>=-Returns _ _ (encodes _) λ b e'. ok-Returns _

  swap_message-Returns :
      (operation : SwapOperation) (to : Option Addr) → Returns (swap_message deps operation to)
  unfolding swap_message query_balance query_pair_info
  swap_message-Returns (native_swap offer_denom ask_denom) to =
      >>=-Returns _ _ (banks _ _) λ a e. ok-Returns _
  swap_message-Returns (prism_swap offer_asset_info ask_asset_info) to =
      >>=-Returns _ _ (load-Returns _) λ config e. >>=-Returns _ _ (pairs _ _) λ found e.
        >>=-Returns _ _ (query_pool-Returns _ _) λ amount e. into_swap_msg-Returns _ _ _ none to

  execute_swap_operation-Returns :
      (info : MessageInfo) (operation : SwapOperation) (to : Option Addr)
      → Returns (execute_swap_operation deps info operation to)
  unfolding execute_swap_operation
  execute_swap_operation-Returns info operation to =
      ensure-Returns _ _ _
        λ self. >>=-Returns _ _ (swap_message-Returns operation to) λ a e. ok-Returns _

  operation_messages-Returns :
      (to : Addr) (n index : ℕ) (operations : List SwapOperation)
      → Returns (operation_messages deps to n index operations)
  unfolding operation_messages
  operation_messages-Returns to n index [] = ok-Returns []
  operation_messages-Returns to n index (operation ∷ operations) = >>=-Returns _ _ (sends _) λ a e.
      >>=-Returns _ _ (operation_messages-Returns to n (index + 1) operations) λ b e'. ok-Returns _

  minimum_message-Returns :
      (minimum : Option ℕ) (target : AssetInfo) (to : Addr)
      → Returns (minimum_message deps minimum target to)
  unfolding minimum_message
  minimum_message-Returns none target to = ok-Returns []
  minimum_message-Returns (some minimum) target to =
      >>=-Returns _ _ (query_pool-Returns target to)
        λ a e. >>=-Returns _ _ (sends _) λ b e'. ok-Returns _

  -- The operations are not empty where their last one is unwrapped.
  execute_swap_operations-Returns :
      (sender : Addr) (operations : List SwapOperation) (minimum : Option ℕ) (to : Option Addr)
      → Returns (execute_swap_operations deps sender operations minimum to)
  unfolding execute_swap_operations assert_operations
  execute_swap_operations-Returns sender [] minimum to =
      ensure-Returns _ _ _ λ nonempty. absurd (cc)
  execute_swap_operations-Returns sender (operation ∷ operations) minimum to =
      let (l, found) = last-some operation operations in
      ensure-Returns _ _ _ λ nonempty. ensure-Returns _ _ _ λ few. ensure-Returns _ _ _ λ single.
        must-Returns _ _ found (
          >>=-Returns _ _ (operation_messages-Returns _ _ 0 (operation ∷ operations))
            λ a e. >>=-Returns _ _ (minimum_message-Returns minimum _ _) λ b e'. ok-Returns _)

  check_operation-Returns :
      (operation : SwapOperation) → Returns (check_operation deps.chain operation)
  unfolding check_operation
  check_operation-Returns (native_swap offer_denom ask_denom) = ok-Returns tt
  check_operation-Returns (prism_swap offer_asset_info ask_asset_info) =
      >>=-Returns _ _ (check-Returns _) λ u e. check-Returns _

  check_operations-Returns :
      (operations : List SwapOperation) → Returns (check_operations deps.chain operations)
  unfolding check_operations
  check_operations-Returns [] = ok-Returns tt
  check_operations-Returns (operation ∷ operations) =
      >>=-Returns _ _ (check_operation-Returns operation) λ u e. check_operations-Returns operations

  execute-Returns : (info : MessageInfo) (msg : RouterExecuteMsg) → Returns (execute deps info msg)
  unfolding execute receive_cw20 assert_minimum_receive
  execute-Returns info (receive msg) = >>=-Returns _ _ (validates _) λ sender e.
      >>=-Returns _ _ (decodes _) λ hook e'.
        >>=-Returns _ _ (check_operations-Returns _) λ u e''.
          execute_swap_operations-Returns sender hook.operations hook.minimum_receive hook.to
  execute-Returns info (swap_operations operations minimum_receive to) =
      >>=-Returns _ _ (check_operations-Returns _)
        λ u e. execute_swap_operations-Returns info.sender operations minimum_receive to
  execute-Returns info (swap_operation operation to) =
      execute_swap_operation-Returns info operation to
  execute-Returns info (assert_minimum asset_info prev_balance minimum_receive receiver) =
      >>=-Returns _ _ (check-Returns _) λ u e.
        >>=-Returns _ _ (query_pool-Returns asset_info receiver)
          λ balance e'. ok_or-Returns _ _ _ λ amount. ensure-Returns _ _ _ λ enough. ok-Returns _

  simulate_operation-Returns :
      (factory : Addr) (operation : SwapOperation) (amount : ℕ)
      → Returns (simulate_operation deps factory operation amount)
  unfolding simulate_operation query_pair_info
  simulate_operation-Returns factory (native_swap offer_denom ask_denom) amount = swaps _ _
  simulate_operation-Returns factory (prism_swap offer_asset_info ask_asset_info) amount =
      >>=-Returns _ _ (pairs _ _) λ found e. >>=-Returns _ _ (simulates _ _) λ res e'. ok-Returns _

  simulate_each-Returns :
      (factory : Addr) (operations : List SwapOperation) (amount : ℕ)
      → Returns (simulate_each deps factory operations amount)
  unfolding simulate_each
  simulate_each-Returns factory [] amount = ok-Returns amount
  simulate_each-Returns factory (operation ∷ operations) amount =
      >>=-Returns _ _ (simulate_operation-Returns factory operation amount)
        λ returned e. simulate_each-Returns factory operations returned

  query-Returns :
      (to_binary : RouterAnswer → StdResult Bytes) (msg : RouterQueryMsg)
      → ((answer : RouterAnswer) → Returns (to_binary answer))
      → Returns (query to_binary deps msg)
  unfolding query query_config simulate_swap_operations
  query-Returns to_binary config_msg binary = >>=-Returns _ _ (load-Returns _) λ c e. binary _
  query-Returns to_binary (simulate_operations offer_amount operations) binary =
      >>=-Returns _ _
        (>>=-Returns _ _ (load-Returns _) λ c e. ensure-Returns _ _ _ λ nonempty.
          ensure-Returns _ _ _ λ few. simulate_each-Returns c.factory operations offer_amount)
        λ amount e. binary _

-- The router never aborts. Where the chain and the other contracts answer each call, with a value or
-- with an error, and so does the encoding of an answer, the router ends every message and every query
-- with a response or an error, whatever the operations are, none included.
pub router_returns :
    (deps : Deps) (to_binary : RouterAnswer → StdResult Bytes)
    → IsAnswering deps
    → ((answer : RouterAnswer) → to_binary answer ≢ panic)
    → ((info : MessageInfo) (msg : RouterExecuteMsg) → execute deps info msg ≢ panic)
      × ((msg : RouterQueryMsg) → query to_binary deps msg ≢ panic)
router_returns deps to_binary answers binary = (
  λ info msg. execute-Returns deps answers info msg,
  λ msg. query-Returns deps answers to_binary msg binary,
)
