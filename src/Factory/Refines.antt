-- ===== src/Factory/Refines.antt =====
-- contracts/prismswap_factory/src/contract.rs against an abstract register: a map from keys to pairs,
-- with the pair that is awaited.
use prismswap_contracts.Base.{
  ◌≡◌, refl, subst, Option, some, none, ok, Bytes, String, bytes_eq, if◌then◌else◌, >>=-elim,
  ok_or-elim, map_err-elim, ensure-elim, ok-injective, unwrap_or,
}
use prismswap_contracts.Asset.{StdResult, Addr, MessageInfo}
use prismswap_contracts.Messages.{FeeConfig, Response}
use prismswap_contracts.ParseReply.{ParseReplyError, ReplyResult}
use prismswap_contracts.Factory.Fees.{IsValid, is_valid-IsValid, default_fees}
use prismswap_contracts.Factory.Pairs.{PairConfig, lookup, pair_key}
use prismswap_contracts.Factory.Pairs.Map.{lookup-save, lookup-remove}
use prismswap_contracts.Factory.State.{
  Config, TmpPairInfo, StoredConfig, current, Storage, migrate_config, Deps,
}
use prismswap_contracts.Factory.Execute.{
  InstantiateMsg, ExecuteMsg, update_config, update_pair_config, create_pair, deregister,
  instantiate, execute, execute_update_config, execute_create_pair, execute_update_pair_config,
  execute_deregister, reply, migrate,
}
use prismswap_contracts.Factory.Execute.Register.{is_free-none}
use prismswap_contracts.Factory.Execute.Invariant.{Step, instantiated, executed, replied, migrated}

-- What a factory promises: the configuration, the pair that is awaited, and the pairs by their keys.
pub record Register : Type 0 where
  pub config : StoredConfig
  pub awaited : Option TmpPairInfo
  pub entries : Bytes → Option PairConfig

-- What stands under the keys afterwards: `v` under `key`, and under any other what stood there.
abbrev pub Entered : Bytes → Option PairConfig → Register → Register → Type 0
Entered key v r r' = (k : Bytes) → r'.entries k ≡ (if bytes_eq key k then v else r.entries k)

-- One operation on the register.
pub data RegisterStep (r r' : Register) : Type 0 where
  configured :
      (config : Config)
      → r'.config ≡ current config
      → r'.awaited ≡ r.awaited
      → ((k : Bytes) → r'.entries k ≡ r.entries k)
      → RegisterStep r r'
  -- a pair is awaited under a key that is free
  announced :
      (key : Bytes) (fees : FeeConfig)
      → r.entries key ≡ none
      → IsValid fees
      → r'.config ≡ r.config
      → r'.awaited ≡ some (record { pair_key = key; fee_config = fees })
      → ((k : Bytes) → r'.entries k ≡ r.entries k)
      → RegisterStep r r'
  -- the awaited pair is entered, at the address that it got
  entered :
      (awaited : TmpPairInfo) (address : Addr)
      → r.awaited ≡ some awaited
      → r'.config ≡ r.config
      → r'.awaited ≡ r.awaited
      → Entered awaited.pair_key
          (some (record { pair_address = address; fee_config = awaited.fee_config }))
          r
          r'
      → RegisterStep r r'
  -- a pair that is there gets other fees, and keeps its address
  repriced :
      (key : Bytes) (old : PairConfig) (fees : FeeConfig)
      → r.entries key ≡ some old
      → IsValid fees
      → r'.config ≡ r.config
      → r'.awaited ≡ r.awaited
      → Entered key (some (record { pair_address = old.pair_address; fee_config = fees })) r r'
      → RegisterStep r r'
  -- a pair that is there is taken out
  removed :
      (key : Bytes) (old : PairConfig)
      → r.entries key ≡ some old
      → r'.config ≡ r.config
      → r'.awaited ≡ r.awaited
      → Entered key none r r'
      → RegisterStep r r'

-- The register that a storage holds.
abbrev pub view : Storage → Register
view s = record {
  config = s.config;
  awaited = s.tmp_pair_info;
  entries = λ key. lookup key s.pairs;
}

module _ (deps : Deps) where
  -- The storage that the code has computed is the one of the result.
  step_to :
      {p q : Response × Storage}
      → ◌≡◌ {A = StdResult (Response × Storage)} (ok p) (ok q)
      → RegisterStep (view deps.storage) (view p.1)
      → RegisterStep (view deps.storage) (view q.1)
  step_to h step =
      subst (λ (p : Response × Storage). RegisterStep (view deps.storage) (view p.1))
        (ok-injective h) step

  execute_refines :
      (info : MessageInfo) (msg : ExecuteMsg) {result : Response × Storage}
      → execute deps info msg ≡ ok result
      → RegisterStep (view deps.storage) (view result.1)
  unfolding execute execute_update_config execute_create_pair execute_update_pair_config
      execute_deregister
  execute_refines info (update_config owner token_code_id pair_code_id collector pairs_admin) h =
      >>=-elim _ _ h λ config e0 h. ensure-elim _ _ _ h λ same h. >>=-elim _ _ h λ u1 e1 h.
        >>=-elim _ _ h
          λ u2 e2 h. >>=-elim _ _ h λ u3 e3 h. step_to h (configured _ refl refl (λ k. refl))
  execute_refines info (create_pair asset_infos fees) h = >>=-elim _ _ h λ checked e h.
      >>=-elim _ _ h λ config e0 h. ensure-elim _ _ _ h λ owner h. ensure-elim _ _ _ h λ valid h.
        ensure-elim _ _ _ h λ free h. >>=-elim _ _ h λ encoded e1 h. step_to h (
          announced (pair_key asset_infos) (unwrap_or fees default_fees) (is_free-none _ free)
            (is_valid-IsValid _ valid) refl refl (λ k. refl))
  execute_refines info (update_pair_config asset_infos fees) h = >>=-elim _ _ h λ checked e h.
      >>=-elim _ _ h λ config e0 h. ensure-elim _ _ _ h λ owner h. ensure-elim _ _ _ h λ valid h.
        ok_or-elim _ _ _ h λ old e1 h. step_to h (
          repriced (pair_key asset_infos) old fees e1 (is_valid-IsValid fees valid) refl refl
            (λ k. lookup-save (pair_key asset_infos) k _ deps.storage.pairs))
  execute_refines info (deregister asset_infos) h = >>=-elim _ _ h λ checked e h.
      >>=-elim _ _ h λ config e0 h. ensure-elim _ _ _ h λ owner h. ok_or-elim _ _ _ h λ old e1 h.
        step_to h (
          removed (pair_key asset_infos) old e1 refl refl
            (λ k. lookup-remove (pair_key asset_infos) k deps.storage.pairs))

  reply_refines :
      (describe : ParseReplyError → String) (msg : ReplyResult) {result : Response × Storage}
      → reply describe deps msg ≡ ok result
      → RegisterStep (view deps.storage) (view result.1)
  unfolding reply
  reply_refines describe msg h = ok_or-elim _ _ _ h λ tmp e0 h. map_err-elim _ _ _ h λ res e1 h.
      >>=-elim _ _ h λ address e2 h.
        step_to h
          (entered tmp address e0 refl refl (λ k. lookup-save tmp.pair_key k _ deps.storage.pairs))

  instantiate_refines :
      (msg : InstantiateMsg) {result : Response × Storage}
      → instantiate deps msg ≡ ok result
      → RegisterStep (view deps.storage) (view result.1)
  unfolding instantiate
  instantiate_refines msg h = >>=-elim _ _ h λ owner e0 h.
      >>=-elim _ _ h λ collector e1 h.
        >>=-elim _ _ h λ admin e2 h. step_to h (configured _ refl refl (λ k. refl))

  migrate_refines :
      (admin : Addr) {s : Storage}
      → migrate deps admin ≡ ok s
      → RegisterStep (view deps.storage) (view s)
  unfolding migrate migrate_config
  migrate_refines admin h = >>=-elim _ _ h λ validated e0 h. >>=-elim _ _ h λ old e1 h.
      subst (λ (s : Storage). RegisterStep (view deps.storage) (view s)) (ok-injective h)
        (configured _ refl refl (λ k. refl))

-- The factory is an abstract register. Whatever entry point is called, a call that succeeds is one
-- operation of the register: the configuration is set; or a pair with fees within the limits is awaited
-- under a key that is free; or the awaited pair is entered; or a pair that is there gets other fees
-- within the limits, or is taken out. No other entry changes.
pub Step-refines : {s s' : Storage} → Step s s' → RegisterStep (view s) (view s')
Step-refines {s} {s'} (instantiated deps msg resp e h) =
    subst (λ (t : Storage). RegisterStep (view t) (view s')) e (instantiate_refines deps msg h)
Step-refines {s} {s'} (executed deps info msg resp e h) =
    subst (λ (t : Storage). RegisterStep (view t) (view s')) e (execute_refines deps info msg h)
Step-refines {s} {s'} (replied describe deps msg resp e h) =
    subst (λ (t : Storage). RegisterStep (view t) (view s')) e (reply_refines deps describe msg h)
Step-refines {s} {s'} (migrated deps admin e h) =
    subst (λ (t : Storage). RegisterStep (view t) (view s')) e (migrate_refines deps admin h)
