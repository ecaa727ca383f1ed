-- ===== src/Pair/Contract/Calls.antt =====
-- The stored item over all calls of the entry points.
use prismswap_contracts.Base.{◌≡◌, ◌≢◌, refl, sym, ◌∙◌, some, none, ok, [], subst}
use prismswap_contracts.Asset.{Addr, MessageInfo}
use prismswap_contracts.Messages.{PairInstantiateMsg, PairExecuteMsg, Response}
use prismswap_contracts.ParseReply.{ReplyResult}
use prismswap_contracts.Pair.State.{Config, Storage, load, load-some, Deps}
use prismswap_contracts.Pair.Contract.{instantiate, execute, reply}
use prismswap_contracts.Pair.Contract.Lifecycle.{instantiate_stores, reply_stores, reply_refused}

-- One call of an entry point of the contract that succeeds. The chain instantiates a contract once,
-- before anything is stored; `execute` gives no storage, and leaves it as it is.
pub data Call (contract : Addr) : Storage → Storage → Type 0 where
  instantiated :
      {s s' : Storage} (deps : Deps) (msg : PairInstantiateMsg) (resp : Response)
      → deps.contract ≡ contract
      → s ≡ none
      → instantiate deps msg ≡ ok (resp, s')
      → Call contract s s'
  executed :
      {s : Storage} (deps : Deps) (info : MessageInfo) (msg : PairExecuteMsg) (resp : Response)
      → deps.contract ≡ contract
      → deps.storage ≡ s
      → execute deps info msg ≡ ok resp
      → Call contract s s
  replied :
      {s s' : Storage} (deps : Deps) (msg : ReplyResult) (resp : Response)
      → deps.contract ≡ contract
      → deps.storage ≡ s
      → reply deps msg ≡ ok (resp, s')
      → Call contract s s'

-- A series of calls, in any order.
pub data Calls (contract : Addr) : Storage → Storage → Type 0 where
  uncalled : {s : Storage} → Calls contract s s
  then : {s s' s'' : Storage} → Calls contract s s' → Call contract s' s'' → Calls contract s s''

-- What holds of every item that is stored.
pub record IsPair (contract : Addr) (config : Config) : Type 0 where
  pub two_assets : config.pair_info.asset_infos.0 ≢ config.pair_info.asset_infos.1
  pub own_address : config.pair_info.contract_addr ≡ contract

abbrev pub StoresPair : Addr → Storage → Type 0
StoresPair contract none = Unit
StoresPair contract (some config) = IsPair contract config

load-eq-ok : (s : Storage) {config : Config} → load s ≡ ok config → s ≡ some config
unfolding load
load-eq-ok none h = absurd (cc)
load-eq-ok (some config) h = cc

module _ (contract : Addr) where
  Call-StoresPair :
      {s s' : Storage} → Call contract s s' → StoresPair contract s → StoresPair contract s'
  Call-StoresPair (instantiated deps msg resp here fresh h) v =
      let (config, stored, assets, differ, address, _, _) = instantiate_stores deps msg h in
      subst (StoresPair contract) (sym stored)
        (record { two_assets = rw assets differ; own_address = address ∙ here })
  Call-StoresPair (executed deps info msg resp here same h) v = v
  Call-StoresPair (replied deps msg resp here same h) v =
      let (old, new, loaded, _, stored, assets, address, _, _, _) = reply_stores deps msg h in
      let before : IsPair contract old =
        subst (StoresPair contract) (sym same ∙ load-eq-ok deps.storage loaded) v in
      subst (StoresPair contract) (sym stored) (record {
        two_assets = rw assets before.two_assets;
        own_address = address ∙ before.own_address;
      })

  Calls-StoresPair :
      {s s' : Storage} → Calls contract s s' → StoresPair contract s → StoresPair contract s'
  Calls-StoresPair uncalled v = v
  Calls-StoresPair (then calls call) v = Call-StoresPair call (Calls-StoresPair calls v)

  module _ (config : Config) (known : config.pair_info.liquidity_token ≢ []) where
    Call-fixed : {s s' : Storage} → Call contract s s' → s ≡ some config → s' ≡ some config
    Call-fixed (instantiated deps msg resp here fresh h) e = absurd (cc)
    Call-fixed (executed deps info msg resp here same h) e = e
    Call-fixed (replied deps msg resp here same h) e =
        absurd (cc (reply_refused deps config msg (load-some (same ∙ e)) known))

    Calls-fixed : {s s' : Storage} → Calls contract s s' → s ≡ some config → s' ≡ some config
    Calls-fixed uncalled e = e
    Calls-fixed (then calls call) e = Call-fixed call (Calls-fixed calls e)

  -- Once the address of its share token is known, a pair is what it is for good: whatever calls made
  -- it, its two assets differ and its address is its own, and after any further calls, by anybody and
  -- in any order, exactly the same item is stored.
  pub config_is_fixed :
      (config : Config) {s : Storage}
      → Calls contract none (some config)
      → config.pair_info.liquidity_token ≢ []
      → Calls contract (some config) s
      → IsPair contract config × (s ≡ some config)
  config_is_fixed config made known further =
      (Calls-StoresPair made tt, Calls-fixed config known further refl)
