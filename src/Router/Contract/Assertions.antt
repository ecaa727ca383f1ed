-- ===== src/Router/Contract/Assertions.antt =====
-- The messages that the router sends itself, and what they assert.
use prismswap_contracts.Base.{
  ℕ, ◌+◌, ◌≤◌, ◌≡◌, ◌↔◌, refl, ◌∙◌, true, false, Option, some, none, List, [], ◌∷◌, ok, length,
  ◌==◌, arith, ◌>>=◌, >>=-elim, ensure-elim, ok_or-elim, bind-ok, ok_or-some, ensure-true,
}
use prismswap_contracts.Numbers.{IsDocumented}
use prismswap_contracts.Numbers.Laws
use prismswap_contracts.Asset.{Addr, StdResult, AssetInfo}
use prismswap_contracts.Messages.{CosmosMsg, wasm_execute}
use prismswap_contracts.Querier.{query_pool}
use prismswap_contracts.Router.State.{SwapOperation, swap_operation, Deps, send_all}
use prismswap_contracts.Router.Contract.{operation_messages, assert_minimum_receive}

-- The operations with their receivers: only the last one has one.
unfoldable pub addressed : Addr → List SwapOperation → List (SwapOperation × Option Addr)
addressed to [] = []
addressed to (operation ∷ []) = (operation, some to) ∷ []
addressed to (operation ∷ next ∷ operations) = (operation, none) ∷ addressed to (next ∷ operations)

-- A message of the router to itself for each of them.
unfoldable pub self_messages :
    Deps → List (SwapOperation × Option Addr) → StdResult (List CosmosMsg)
self_messages deps [] = ok []
self_messages deps ((operation, to) ∷ rest) = do
  msg ← deps.encode (swap_operation operation to)
  messages ← self_messages deps rest
  ok (wasm_execute deps.contract msg [] ∷ messages)

operation_messages_from :
    (deps : Deps) (to : Addr) (operations_len index : ℕ) (operations : List SwapOperation)
    → operations_len ≡ index + length operations
    → operation_messages deps to operations_len index operations
      ≡ self_messages deps (addressed to operations)
unfolding operation_messages addressed self_messages
operation_messages_from deps to n index [] e = refl
operation_messages_from deps to n index (operation ∷ []) e =
    let here : ((index + 1) == n) ≡ true = ground arith in rw here refl
operation_messages_from deps to n index (operation ∷ next ∷ operations) e =
    let here : ((index + 1) == n) ≡ false = ground arith in
    let rest = operation_messages_from deps to n (index + 1) (next ∷ operations) (omega arith) in
    rw (here, rest) refl

-- Of the messages for a chain of operations, in their order, exactly the last one names the receiver;
-- the operations before it leave what they return with the router.
pub operation_messages-addressed :
    (deps : Deps) (to : Addr) (operations : List SwapOperation)
    → operation_messages deps to (length operations) 0 operations
      ≡ self_messages deps (addressed to operations)
operation_messages-addressed deps to operations =
    operation_messages_from deps to (length operations) 0 operations (omega arith)

module _ (deps : Deps) (doc : IsDocumented deps.arith) where
  -- Where the balance of the receiver is known, the assertion at the end passes exactly if the receiver
  -- has at least the minimum more than before.
  pub assert_minimum_receive_iff :
      (asset_info : AssetInfo) (prev_balance minimum_receive : ℕ) (receiver : Addr) {balance : ℕ}
      → query_pool deps.chain asset_info receiver ≡ ok balance
      → (assert_minimum_receive deps asset_info prev_balance minimum_receive receiver
          ≡ ok (send_all []))
        ↔ (prev_balance + minimum_receive ≤ balance)
  unfolding assert_minimum_receive
  assert_minimum_receive_iff asset_info prev minimum receiver {balance} q = (
    λ h. >>=-elim _ _ h λ found e h. ok_or-elim _ _ _ h λ amount e1 h.
        ensure-elim _ _ _ h λ enough h.
          let sum = Laws.checked_sub-eq-some deps.arith doc _ _ e1 in
          let same : found ≡ balance = cc (q, e) in ground arith,
    λ le.
        bind-ok _ q
        ∙ bind-ok _ (
            ok_or-some _
              (doc.checked_sub_law balance prev ∙ Laws.difference-some balance prev (omega arith)))
        ∙ ensure-true _ _ (ground arith),
  )
