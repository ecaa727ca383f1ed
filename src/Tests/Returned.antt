-- ===== src/Tests/Returned.antt =====
-- A router on a chain that answers.
use prismswap_contracts.Base.{◌≢◌, [], ok, panic, Bytes, ok-Returns}
use prismswap_contracts.Asset.{StdResult, MessageInfo}
use prismswap_contracts.Router.State.{RouterExecuteMsg, RouterQueryMsg}
use prismswap_contracts.Router.Contract.{execute, RouterAnswer, query}
use prismswap_contracts.Router.Contract.Returns.{IsAnswering, router_returns}
use prismswap_contracts.Tests.Route.{deps}

deps-IsAnswering : IsAnswering deps
deps-IsAnswering = record {
  validates = λ a. ok-Returns a;
  encodes = λ msg. ok-Returns _;
  banks = λ account denom. ok-Returns 40;
  tokens = λ token account. ok-Returns 0;
  pairs = λ factory infos. ok-Returns _;
  simulates = λ pair asset. ok-Returns _;
  swaps = λ offer ask_denom. ok-Returns offer.amount;
  sends = λ msg. ok-Returns _;
  decodes = λ bytes. ok-Returns _;
}

abbrev empty_answer : RouterAnswer → StdResult Bytes
empty_answer answer = ok []

router_returns_example :
    ((info : MessageInfo) (msg : RouterExecuteMsg) → execute deps info msg ≢ panic)
    × ((msg : RouterQueryMsg) → query empty_answer deps msg ≢ panic)
router_returns_example = router_returns deps empty_answer deps-IsAnswering (λ answer. ok-Returns [])
