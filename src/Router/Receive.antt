-- ===== src/Router/Receive.antt =====
-- What the assertion at the end of a route guarantees to the receiver.
use prismswap_contracts.Base.{
  ℕ, ◌+◌, ◌≤◌, ◌≡◌, sym, ap, Option, some, List, [], ok, Bytes, arith, unwrap_or, >>=-elim,
  must-elim, ensure-elim, ok_or-elim, ok-injective, subst,
}
use prismswap_contracts.Numbers.{IsDocumented}
use prismswap_contracts.Numbers.Laws
use prismswap_contracts.Asset.{Addr, AssetInfo}
use prismswap_contracts.Messages.{CosmosMsg, wasm_execute, Response}
use prismswap_contracts.Delivery.{deliver_all, deliver_all-append, deliver_all-one, deliver_all-nil}
use prismswap_contracts.Querier.{query_pool}
use prismswap_contracts.Router.State.{
  SwapOperation, get_target_asset_info, RouterExecuteMsg, assert_minimum, Deps,
}
use prismswap_contracts.Router.Contract.{
  last, minimum_message, execute_swap_operations, assert_minimum_receive, execute,
}

-- The chain around the router: what the router sees in a state, and the delivery of a message.
pub record RouterChain : Type 1 where
  pub State : Type 0
  pub deps : State → Deps
  pub deliver : State → CosmosMsg → Option State

-- A message of the router to itself, encoded in whichever state, is executed by the router, which is
-- its sender, and the messages of that response are delivered in turn.
pub record IsRouterChain (k : RouterChain) : Type 0 where
  pub documented : (w : k.State) → IsDocumented (k.deps w).arith
  pub self_call :
      (encoded w w' : k.State) (msg : RouterExecuteMsg) {bytes : Bytes}
      → (k.deps encoded).encode msg ≡ ok bytes
      → k.deliver w (wasm_execute (k.deps encoded).contract bytes []) ≡ some w'
      → (resp : Response) × (execute
            (k.deps w)
            (record { sender = (k.deps encoded).contract; funds = [] })
            msg
          ≡ ok resp)
        × (deliver_all k.deliver w resp.messages ≡ some w')

module _ (k : RouterChain) (laws : IsRouterChain k) where
  open k use {State, deps, deliver}
  open laws use {documented, self_call}

  -- The assertion, delivered: nothing moves, and the balance has grown enough.
  pub asserted :
      (encoded w w' : State) (target : AssetInfo) (before minimum : ℕ) (receiver : Addr)
      {bytes : Bytes}
      → (deps encoded).encode (assert_minimum target before minimum receiver) ≡ ok bytes
      → deliver w (wasm_execute (deps encoded).contract bytes []) ≡ some w'
      → (w ≡ w')
        × (after : ℕ) × (query_pool (deps w').chain target receiver ≡ ok after)
        × (before + minimum ≤ after)
  unfolding execute assert_minimum_receive
  asserted encoded w w' target before minimum receiver e d =
      let (resp, ran, delivered) =
        self_call encoded w w' (assert_minimum target before minimum receiver) e d in
      >>=-elim _ _ ran λ checked e0 ran. >>=-elim _ _ ran λ after e1 ran.
        ok_or-elim _ _ _ ran λ amount e2 ran. ensure-elim _ _ _ ran λ enough ran.
          let none_sent : resp.messages ≡ [] =
            ap (λ (r : Response). r.messages) (sym (ok-injective ran)) in
          let same : w ≡ w' = deliver_all-nil deliver w (rw none_sent at delivered) in
          let sum = Laws.checked_sub-eq-some (deps w).arith (documented w) _ _ e2 in
          (
            same,
            after,
            subst (λ v. query_pool (deps v).chain target receiver ≡ ok after) same e1,
            ground (arith, sum, enough),
          )

  -- A route never gives less than its minimum. Where the router accepts a route with a minimum, and
  -- its messages are all delivered, whatever the pairs do with them, the receiver holds at least the
  -- minimum more of the last operation's target than before.
  pub route_minimum :
      (w w' : State) (sender : Addr) (operations : List SwapOperation) (minimum : ℕ)
      (to : Option Addr) {resp : Response}
      → execute_swap_operations (deps w) sender operations (some minimum) to ≡ ok resp
      → deliver_all deliver w resp.messages ≡ some w'
      → (operation : SwapOperation) × (last operations ≡ some operation)
        × (before : ℕ) × (after : ℕ) × (query_pool
              (deps w).chain
              (get_target_asset_info operation)
              (unwrap_or to sender)
            ≡ ok before)
        × (query_pool (deps w').chain (get_target_asset_info operation) (unwrap_or to sender)
            ≡ ok after)
        × (before + minimum ≤ after)
  unfolding execute_swap_operations minimum_message
  route_minimum w w' sender operations minimum to h delivered = ensure-elim _ _ _ h λ c1 h.
      ensure-elim _ _ _ h λ c2 h. >>=-elim _ _ h λ u e0 h. must-elim _ _ h λ operation e1 h.
        >>=-elim _ _ h λ messages e2 h. >>=-elim _ _ h λ assertion e3 h.
          >>=-elim _ _ e3 λ before e4 e3. >>=-elim _ _ e3 λ bytes e5 e3.
            let sent = ap (λ (r : Response). r.messages) (sym (ok-injective h)) in
            let (v, _, rest) =
              deliver_all-append deliver w messages assertion (rw sent at delivered) in
            let one = deliver_all-one deliver v _ (rw (sym (ok-injective e3)) at rest) in
            let (_, after, held, enough) =
              asserted w v w' (get_target_asset_info operation) before minimum (unwrap_or to sender)
                e5 one in
            (operation, e1, before, after, e4, held, enough)
