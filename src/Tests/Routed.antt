-- ===== src/Tests/Routed.antt =====
-- A route on the chain where an exchange brings ten units, swap after swap.
use prismswap_contracts.Base.{
  ℕ, ◌+◌, ◌≤◌, ◌≡◌, ◌↔◌, refl, sym, ◌∙◌, ap, arith, none, some, [], ok, Bytes, leb, true, >>=-elim,
  ensure-elim, ok_or-elim, ok-injective, bytes_eq, ensure, ◌>>=◌, unwrap_or, ascii,
}
use prismswap_contracts.Numbers.Laws
use prismswap_contracts.Numbers.Reference.{reference, reference-IsDocumented}
use prismswap_contracts.Asset.{Addr, cw20, native}
use prismswap_contracts.Messages.{wasm_execute, Response}
use prismswap_contracts.Delivery.{deliver_all, deliver_all-nil}
use prismswap_contracts.Querier.{query_balance, check}
use prismswap_contracts.Router.State.{
  native_swap, prism_swap, get_target_asset_info, RouterExecuteMsg, receive, swap_operations,
  swap_operation, assert_minimum,
}
use prismswap_contracts.Router.Operations.{native_swap_msg, swap_message, execute_swap_operation}
use prismswap_contracts.Router.Contract.{last, assert_minimum_receive, execute}
use prismswap_contracts.Router.Contract.Assertions.{addressed}
use prismswap_contracts.Router.Legs.{IsCalling, Legs, Received, route_iff}
use prismswap_contracts.Tests.{alice}
use prismswap_contracts.Tests.Received.{
  router, at, balance_held, encode_self, effect, exchange, exchange-IsRouterChain, operations,
  response, route_accepted,
}

assert_passed :
    (w : ℕ) (denom : Bytes) (before minimum : ℕ) (receiver : Addr) {resp : Response}
    → assert_minimum_receive (at w) (native denom) before minimum receiver ≡ ok resp
    → (resp.messages ≡ []) × (before + minimum ≤ w)
unfolding assert_minimum_receive
assert_passed w denom before minimum receiver ran = >>=-elim _ _ ran λ balance e1 ran.
    ok_or-elim _ _ _ ran λ amount e2 ran. ensure-elim _ _ _ ran λ enough ran.
      let sum = Laws.checked_sub-eq-some reference reference-IsDocumented _ _ e2 in
      let held : w ≡ balance = ok-injective (sym (balance_held w denom receiver) ∙ e1) in
      (
        ap (λ (r : Response). r.messages) (sym (ok-injective ran)),
        ground (arith, sum, enough, held),
      )

calls_of :
    (w w' : ℕ) (msg : RouterExecuteMsg) {bytes : Bytes} {resp : Response}
    → encode_self msg ≡ ok bytes
    → execute (at w) (record { sender = router; funds = [] }) msg ≡ ok resp
    → deliver_all effect w resp.messages ≡ some w'
    → effect w (wasm_execute router bytes []) ≡ some w'
unfolding execute execute_swap_operation swap_message native_swap_msg query_balance check bytes_eq
    ensure deliver_all ◌>>=◌
calls_of w w' (receive msg) e ran d = absurd (cc)
calls_of w w' (swap_operations operations minimum to) e ran d = absurd (cc)
calls_of w w' (swap_operation (native_swap offer ask) (some to)) e ran d =
    rw (sym (ok-injective e)) (rw (sym (ok-injective ran)) at d)
calls_of w w' (swap_operation (native_swap offer ask) none) e ran d = absurd (cc)
calls_of w w' (swap_operation (prism_swap offer ask) to) e ran d = absurd (cc)
calls_of w w' (assert_minimum (cw20 token) before minimum receiver) e ran d = absurd (cc)
calls_of w w' (assert_minimum (native denom) before minimum receiver) {resp = resp} e ran d =
    let (none_sent, enough) = assert_passed w denom before minimum receiver ran in
    let same : w ≡ w' = deliver_all-nil effect w (rw none_sent at d) in
    let covered : leb (before + minimum) w ≡ true = ground arith in
    rw (sym (ok-injective e), covered, same) refl

exchange-IsCalling : IsCalling exchange
exchange-IsCalling = record {
  same_contract = λ v w. refl;
  calls = λ encoded w w' msg e ran d. calls_of w w' msg e ran d;
}

dollars_checked :
    (v : ℕ)
    → check (at v).chain (get_target_asset_info (native_swap (ascii "uluna") (ascii "uusd")))
      ≡ ok tt
unfolding check get_target_asset_info
dollars_checked v = refl

last_run : last operations ≡ some (native_swap (ascii "uluna") (ascii "uusd"))
unfolding last
last_run = refl

route_iff_example : (deliver_all effect 40 response.messages ≡ some 50) ↔ (
    Legs exchange (addressed alice operations) 40 50
    × Received exchange 40 50
        (get_target_asset_info (native_swap (ascii "uluna") (ascii "uusd")))
        alice
        (some 5))
unfolding unwrap_or
route_iff_example =
    route_iff exchange exchange-IsRouterChain exchange-IsCalling 40 50 alice operations (some 5)
      none (native_swap (ascii "uluna") (ascii "uusd")) last_run dollars_checked route_accepted
