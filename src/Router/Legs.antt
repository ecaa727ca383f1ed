-- ===== src/Router/Legs.antt =====
-- A route with the delivery of its messages: contracts/prismswap_router/src/contract.rs and
-- operations.rs, from the message that starts it to the last swap.
use prismswap_contracts.Base.{
  ℕ, ◌+◌, ◌≤◌, ◌≡◌, ◌↔◌, refl, sym, ◌∙◌, ap, Option, none, some, List, [], ◌∷◌, ◌++◌, ok, Bytes,
  arith, unwrap_or, >>=-elim, must-elim, ensure-elim, ok-injective, some-injective, bind-ok,
  ensure-true, bytes_eq_iff, subst,
}
use prismswap_contracts.Asset.{Addr, AssetInfo}
use prismswap_contracts.Messages.{CosmosMsg, wasm_execute, Response}
use prismswap_contracts.Delivery.{
  deliver_all, deliver_all-append, deliver_all-one, deliver_all-both, deliver_all-cons,
  deliver_all-uncons, deliver_all-nil, deliver_all-done,
}
use prismswap_contracts.Router.State.{
  SwapOperation, get_target_asset_info, RouterExecuteMsg, swap_operation, assert_minimum,
}
use prismswap_contracts.Router.Operations.{swap_message, execute_swap_operation}
use prismswap_contracts.Router.Contract.{last, minimum_message, execute_swap_operations, execute}
use prismswap_contracts.Router.Contract.Assertions.{
  addressed, self_messages, operation_messages-addressed, assert_minimum_receive_iff,
}
use prismswap_contracts.Router.Receive.{RouterChain, IsRouterChain, asserted}
use prismswap_contracts.Querier.{query_pool, check}

module _ (k : RouterChain) where
  open k use {State, deps, deliver}

  -- A message of the router to itself is delivered where the router executes it and what it sends is
  -- delivered.
  pub record IsCalling : Type 0 where
    pub same_contract : (v w : State) → (deps v).contract ≡ (deps w).contract
    pub calls :
        (encoded w w' : State) (msg : RouterExecuteMsg) {bytes : Bytes} {resp : Response}
        → (deps encoded).encode msg ≡ ok bytes
        → execute (deps w) (record { sender = (deps encoded).contract; funds = [] }) msg ≡ ok resp
        → deliver_all deliver w resp.messages ≡ some w'
        → deliver w (wasm_execute (deps encoded).contract bytes []) ≡ some w'

  -- The swaps one after the other: each is a message that the router builds of what it holds in the
  -- state that the one before has left, for the receiver that stands by the operation.
  pub data Legs : List (SwapOperation × Option Addr) → State → State → Type 0 where
    ended : {w : State} → Legs [] w w
    leg :
        {operation : SwapOperation} {to : Option Addr} {rest : List (SwapOperation × Option Addr)}
        {w v w' : State} (msg : CosmosMsg)
        → swap_message (deps w) operation to ≡ ok msg
        → deliver w msg ≡ some v
        → Legs rest v w'
        → Legs ((operation, to) ∷ rest) w w'

  -- What the receiver holds of the target grew by the minimum, where there is one.
  abbrev pub Received : State → State → AssetInfo → Addr → Option ℕ → Type 0
  Received w w' target receiver none = Unit
  Received w w' target receiver (some minimum) =
      (before : ℕ) × (after : ℕ) × (query_pool (deps w).chain target receiver ≡ ok before)
      × (query_pool (deps w').chain target receiver ≡ ok after)
      × (before + minimum ≤ after)

  module _ (laws : IsRouterChain k) (calling : IsCalling) where
    open laws use {documented, self_call}
    open calling use {same_contract, calls}

    leg_iff :
        (encoded w w' : State) (operation : SwapOperation) (to : Option Addr) {bytes : Bytes}
        → (deps encoded).encode (swap_operation operation to) ≡ ok bytes
        → (deliver w (wasm_execute (deps encoded).contract bytes []) ≡ some w') ↔ (
            (msg : CosmosMsg) × (swap_message (deps w) operation to ≡ ok msg)
            × (deliver w msg ≡ some w'))
    unfolding execute execute_swap_operation
    leg_iff encoded w w' operation to e = (
      λ d.
          let (resp, ran, delivered) = self_call encoded w w' (swap_operation operation to) e d in
          ensure-elim _ _ _ ran λ own ran. >>=-elim _ _ ran λ msg built ran.
            let sent : resp.messages ≡ msg ∷ [] =
              ap (λ (r : Response). r.messages) (sym (ok-injective ran)) in
            (msg, built, deliver_all-one deliver w msg (rw sent at delivered)),
      λ (msg, built, d).
          calls encoded w w' (swap_operation operation to) e
            (ensure-true _ _ ((bytes_eq_iff _ _).1 (same_contract w encoded)) ∙ bind-ok _ built)
            (deliver_all-cons deliver w msg [] d (deliver_all-done deliver w')),
    )

    deliver_all-Legs :
        (encoded w w' : State) (operations : List (SwapOperation × Option Addr))
        {messages : List CosmosMsg}
        → self_messages (deps encoded) operations ≡ ok messages
        → deliver_all deliver w messages ≡ some w'
        → Legs operations w w'
    unfolding self_messages
    deliver_all-Legs encoded w w' [] h d =
        let none_sent : [] ≡ _ = ok-injective h in
        let same : w ≡ w' = deliver_all-nil deliver w (rw (sym none_sent) at d) in
        subst (λ (v : State). Legs [] w v) same ended
    deliver_all-Legs encoded w w' ((operation, to) ∷ rest) {messages} h d =
        >>=-elim _ _ h λ bytes e h. >>=-elim _ _ h λ others e' h.
          let sent : messages ≡ wasm_execute (deps encoded).contract bytes [] ∷ others =
            sym (ok-injective h) in
          let (v, d0, d1) = deliver_all-uncons deliver w _ others (rw sent at d) in
          let (msg, built, d0) = (leg_iff encoded w v operation to e).0 d0 in
          leg msg built d0 (deliver_all-Legs encoded v w' rest e' d1)

    Legs-deliver_all :
        (encoded w w' : State) (operations : List (SwapOperation × Option Addr))
        {messages : List CosmosMsg}
        → self_messages (deps encoded) operations ≡ ok messages
        → Legs operations w w'
        → deliver_all deliver w messages ≡ some w'
    unfolding self_messages
    Legs-deliver_all encoded w w' [] {messages} h ended =
        let none_sent : messages ≡ [] = sym (ok-injective h) in
        rw none_sent (deliver_all-done deliver w)
    Legs-deliver_all encoded w w' ((operation, to) ∷ rest) {messages} h
          (leg {v = v} msg built d legs) =
        >>=-elim _ _ h λ bytes e h. >>=-elim _ _ h λ others e' h.
          let sent : messages ≡ wasm_execute (deps encoded).contract bytes [] ∷ others =
            sym (ok-injective h) in
          rw sent (
            deliver_all-cons deliver w _ others
              ((leg_iff encoded w v operation to e).1 (msg, built, d))
              (Legs-deliver_all encoded v w' rest e' legs))

    minimum_iff :
        (w v w' : State) (minimum : Option ℕ) (target : AssetInfo) (receiver : Addr)
        {assertion : List CosmosMsg}
        → check (deps v).chain target ≡ ok tt
        → minimum_message (deps w) minimum target receiver ≡ ok assertion
        → (deliver_all deliver v assertion ≡ some w')
          ↔ ((v ≡ w') × Received w w' target receiver minimum)
    unfolding minimum_message execute
    minimum_iff w v w' none target receiver {assertion} checked h =
        let empty : assertion ≡ [] = sym (ok-injective h) in
        (
          λ d. (deliver_all-nil deliver v (rw empty at d), tt),
          λ (same, u).
              rw empty
                (subst (λ u. deliver_all deliver v [] ≡ some u) same (deliver_all-done deliver v)),
        )
    minimum_iff w v w' (some minimum) target receiver {assertion} checked h =
        >>=-elim _ _ h λ before e h. >>=-elim _ _ h λ bytes e' h.
          let one : assertion ≡ wasm_execute (deps w).contract bytes [] ∷ [] =
            sym (ok-injective h) in
          (
            λ d.
                let (same, after, held, enough) =
                  asserted k laws w v w' target before minimum receiver e'
                    (deliver_all-one deliver v _ (rw one at d)) in
                (same, (before, after, e, held, enough)),
            λ (same, (before', after, e0, held, enough)).
                let start : before' ≡ before = ok-injective (sym e0 ∙ e) in
                let held' =
                  subst (λ u. query_pool (deps u).chain target receiver ≡ ok after) (sym same)
                    held in
                let passed =
                  (assert_minimum_receive_iff (deps v) (documented v) target before minimum receiver
                      held').1
                    (omega (arith, start, enough)) in
                subst (λ u. deliver_all deliver v assertion ≡ some u) same
                  (rw one (
                    deliver_all-cons deliver v _ []
                      (calls w v v (assert_minimum target before minimum receiver) e'
                        (bind-ok _ checked ∙ passed) (deliver_all-done deliver v))
                      (deliver_all-done deliver v))),
          )

    -- What it takes for a route to go through. Where the router accepts a route, with a minimum or
    -- without one, and the target is an asset whose address passes the check, its messages are
    -- delivered exactly if every operation in its order has the router swap what it then holds, the
    -- last one for the receiver, and after the last the receiver holds at least the minimum more of
    -- the target than before the first.
    pub route_iff :
        (w w' : State) (sender : Addr) (operations : List SwapOperation) (minimum : Option ℕ)
        (to : Option Addr) (operation : SwapOperation) {resp : Response}
        → last operations ≡ some operation
        → ((v : State) → check (deps v).chain (get_target_asset_info operation) ≡ ok tt)
        → execute_swap_operations (deps w) sender operations minimum to ≡ ok resp
        → (deliver_all deliver w resp.messages ≡ some w') ↔ (
            Legs (addressed (unwrap_or to sender) operations) w w'
            × Received w w' (get_target_asset_info operation) (unwrap_or to sender) minimum)
    unfolding execute_swap_operations
    route_iff w w' sender operations minimum to operation {resp} final checked h =
        ensure-elim _ _ _ h λ c1 h. ensure-elim _ _ _ h λ c2 h. >>=-elim _ _ h λ u e0 h.
          must-elim _ _ h λ found e1 h. >>=-elim _ _ h λ messages e2 h.
            >>=-elim _ _ h λ assertion e3 h.
              let same : found ≡ operation = some-injective (sym e1 ∙ final) in
              let receiver = unwrap_or to sender in
              let target = get_target_asset_info operation in
              let asserts : minimum_message (deps w) minimum target receiver ≡ ok assertion =
                rw same at e3 in
              let selves = sym (operation_messages-addressed (deps w) receiver operations) ∙ e2 in
              let sent : resp.messages ≡ messages ++ assertion =
                ap (λ (r : Response). r.messages) (sym (ok-injective h)) in
              (
                λ d.
                    let (v, d0, d1) =
                      deliver_all-append deliver w messages assertion (rw sent at d) in
                    let legs = deliver_all-Legs w w v _ selves d0 in
                    let (end, received) =
                      (minimum_iff w v w' minimum target receiver (checked v) asserts).0 d1 in
                    (
                      subst (λ (u : State). Legs (addressed receiver operations) w u) end legs,
                      received,
                    ),
                λ (legs, received). rw sent (
                    deliver_all-both deliver w messages assertion
                      (Legs-deliver_all w w w' _ selves legs)
                      ((minimum_iff w w' w' minimum target receiver (checked w') asserts).1
                        (refl, received))),
              )
