-- ===== src/Tests/Received.antt =====
-- A route with a minimum, on a chain where an exchange brings ten units.
use prismswap_contracts.Base.{
  ℕ, ◌+◌, ◌≤◌, ◌≡◌, refl, Option, none, some, List, [], ◌∷◌, ok, err, Bytes, Bool-cases, inl, inr,
  leb, leb→le, sym, ok-injective, ascii, bytes_eq, unwrap_or, ◌>>=◌, must, ensure, if◌then◌else◌,
}
use prismswap_contracts.Numbers.Reference.{reference, reference-IsDocumented}
use prismswap_contracts.Asset.{Addr, StdResult, cw20, native, parse_err}
use prismswap_contracts.Messages.{CosmosMsg, wasm_execute, wasm_instantiate, bank_send, Response}
use prismswap_contracts.Delivery.{deliver_all}
use prismswap_contracts.Querier.{query_pool, query_balance, check}
use prismswap_contracts.Router.State.{
  SwapOperation, native_swap, prism_swap, get_target_asset_info, RouterExecuteMsg, receive,
  swap_operations, swap_operation, assert_minimum, Deps, send_all,
}
use prismswap_contracts.Router.Operations.{native_swap_msg, swap_message, execute_swap_operation}
use prismswap_contracts.Router.Contract.{
  offered, remove_key, insert_key, ask_assets, assert_operations, last, operation_messages,
  minimum_message, execute_swap_operations, execute,
}
use prismswap_contracts.Router.Contract.Assertions.{assert_minimum_receive_iff}
use prismswap_contracts.Router.Receive.{RouterChain, IsRouterChain, route_minimum}
use prismswap_contracts.Tests.{alice, factory_address, chain}

abbrev pub router : Addr
router = ascii "router"

-- An exchange for a receiver, or an assertion on a native coin; nothing else is encoded.
abbrev pub encode_self : RouterExecuteMsg → StdResult Bytes
encode_self (receive msg) = err parse_err
encode_self (swap_operations operations minimum_receive to) = err parse_err
encode_self (swap_operation (native_swap offer ask) (some to)) = ok (111 ∷ [])
encode_self (swap_operation (native_swap offer ask) none) = err parse_err
encode_self (swap_operation (prism_swap offer ask) to) = err parse_err
encode_self (assert_minimum (native denom) prev_balance minimum_receive receiver) =
    ok (prev_balance ∷ minimum_receive ∷ [])
encode_self (assert_minimum (cw20 token) prev_balance minimum_receive receiver) = err parse_err

-- The state is the balance of everybody.
abbrev pub at : ℕ → Deps
at balance = record {
  arith = reference;
  chain = chain balance 0 0;
  contract = router;
  storage = some (record { factory = factory_address });
  query_swap = λ offer ask. ok (offer.amount);
  create_swap_send_msg = λ to offer ask. bank_send to (offer ∷ []);
  create_swap_msg = λ offer ask. bank_send router (offer ∷ []);
  encode = encode_self;
  decode = λ msg. err parse_err;
  asset_text = λ info. [];
  below_minimum_text = λ minimum amount. "assertion failed";
}

abbrev self_effect : ℕ → Bytes → Option ℕ
self_effect balance [] = none
self_effect balance (b ∷ []) = some (balance + 10)
self_effect balance (prev ∷ minimum ∷ rest) =
    if leb (prev + minimum) balance then some balance else none

abbrev pub effect : ℕ → CosmosMsg → Option ℕ
effect balance (wasm_execute contract msg funds) = self_effect balance msg
effect balance (wasm_instantiate code_id msg funds admin label) = none
effect balance (bank_send to coins) = some (balance + 10)

abbrev pub exchange : RouterChain
exchange = record { State = ℕ; deps = at; deliver = effect }

pub balance_held :
    (balance : ℕ) (denom receiver : Bytes)
    → query_pool (chain balance 0 0) (native denom) receiver ≡ ok balance
unfolding query_pool query_balance
balance_held balance denom receiver = refl

self_calls :
    (w w' : ℕ) (msg : RouterExecuteMsg) {bytes : Bytes}
    → encode_self msg ≡ ok bytes
    → effect w (wasm_execute router bytes []) ≡ some w'
    → (resp : Response) × (execute (at w) (record { sender = router; funds = [] }) msg ≡ ok resp)
      × (deliver_all effect w resp.messages ≡ some w')
unfolding execute execute_swap_operation swap_message native_swap_msg query_balance check bytes_eq
    ensure deliver_all ◌>>=◌
self_calls w w' (receive msg) e d = absurd (cc)
self_calls w w' (swap_operations operations minimum to) e d = absurd (cc)
self_calls w w' (swap_operation (native_swap offer ask) (some to)) e d =
    (_, refl, rw (sym (ok-injective e)) at d)
self_calls w w' (swap_operation (native_swap offer ask) none) e d = absurd (cc)
self_calls w w' (swap_operation (prism_swap offer ask) to) e d = absurd (cc)
self_calls w w' (assert_minimum (cw20 token) before minimum receiver) e d = absurd (cc)
self_calls w w' (assert_minimum (native denom) before minimum receiver) e d =
    let d' : (if leb (before + minimum) w then some w else none) ≡ some w' =
      rw (sym (ok-injective e)) at d in
    elim (Bool-cases (leb (before + minimum) w)) [
      | inl enough ↦ (
        send_all [],
        (assert_minimum_receive_iff (at w) reference-IsDocumented (native denom) before minimum
              receiver (balance_held w denom receiver)).1
            (leb→le _ _ enough),
        rw enough at d',
      )
      | inr short ↦ absurd (cc (rw short at d'))
    ]

pub exchange-IsRouterChain : IsRouterChain exchange
exchange-IsRouterChain = record {
  documented = λ w. reference-IsDocumented;
  self_call = λ encoded w w' msg e d. self_calls w w' msg e d;
}

-- Luna for dollars.
abbrev pub operations : List SwapOperation
operations = native_swap (ascii "uluna") (ascii "uusd") ∷ []

abbrev pub response : Response
response = send_all (wasm_execute router (111 ∷ []) [] ∷ wasm_execute router (40 ∷ 5 ∷ []) [] ∷ [])

pub route_accepted : execute_swap_operations (at 40) alice operations (some 5) none ≡ ok response
unfolding execute_swap_operations assert_operations ask_assets insert_key remove_key bytes_eq
    offered get_target_asset_info last operation_messages minimum_message query_pool query_balance
    ◌>>=◌ must ensure unwrap_or
route_accepted = refl

route_delivered : deliver_all effect 40 response.messages ≡ some 50
unfolding deliver_all
route_delivered = refl

route_minimum_example :
    (operation : SwapOperation) × (last operations ≡ some operation)
    × (before : ℕ) × (after : ℕ) × (query_pool
          (chain 40 0 0)
          (get_target_asset_info operation)
          (unwrap_or none alice)
        ≡ ok before)
    × (query_pool (chain 50 0 0) (get_target_asset_info operation) (unwrap_or none alice)
        ≡ ok after)
    × (before + 5 ≤ after)
route_minimum_example =
    route_minimum exchange exchange-IsRouterChain 40 50 alice operations 5 none route_accepted
      route_delivered
