-- ===== src/Factory/Execute/Invariant.antt =====
-- Every fee configuration that the factory stores, and so every one that it answers with, is within
-- the limits of packages/prismswap/src/factory.rs, in every storage that can be reached.
use prismswap_contracts.Base.{
  ◌≡◌, sym, subst, Option, some, none, [], ◌∷◌, ok, Bytes, String, bytes_eq, >>=-elim, ok_or-elim,
  map_err-elim, ensure-elim, ok-injective, Bool-cases, inl, inr,
}
use prismswap_contracts.Asset.{AssetInfo, MessageInfo, Addr}
use prismswap_contracts.Messages.{FeeInfoResponse, Response}
use prismswap_contracts.ParseReply.{ParseReplyError, ReplyResult}
use prismswap_contracts.Factory.Fees.{IsValid, is_valid-IsValid, default_fees-IsValid}
use prismswap_contracts.Factory.Pairs.{PairConfig, Pairs, lookup, save, remove, pair_key}
use prismswap_contracts.Factory.State.{TmpPairInfo, Storage, absent, migrate_config, Deps}
use prismswap_contracts.Factory.Query.{fees_of, query_fee_config}
use prismswap_contracts.Factory.Execute.{
  InstantiateMsg, ExecuteMsg, update_config, update_pair_config, create_pair, deregister,
  instantiate, execute, execute_update_config, execute_create_pair, execute_update_pair_config,
  execute_deregister, reply, migrate,
}

abbrev AllValid : Pairs → Type 0
AllValid [] = Unit
AllValid ((k, v) ∷ pairs) = IsValid v.fee_config × AllValid pairs

abbrev TmpValid : Option TmpPairInfo → Type 0
TmpValid none = Unit
TmpValid (some tmp) = IsValid tmp.fee_config

pub record HasValidFees (s : Storage) : Type 0 where
  pub registered : AllValid s.pairs
  pub pending : TmpValid s.tmp_pair_info

fees_of-lookup :
    (key : Bytes) (pairs : Pairs) → AllValid pairs → IsValid (fees_of (lookup key pairs))
unfolding fees_of lookup
fees_of-lookup key [] all = default_fees-IsValid
fees_of-lookup key ((k, v) ∷ pairs) (valid, all) = elim (Bool-cases (bytes_eq k key)) [
  | inl same ↦ rw same valid
  | inr other ↦ rw other (fees_of-lookup key pairs all)
]

save-AllValid :
    (key : Bytes) (v : PairConfig) (pairs : Pairs)
    → IsValid v.fee_config
    → AllValid pairs
    → AllValid (save key v pairs)
unfolding save
save-AllValid key v [] valid all = (valid, tt)
save-AllValid key v ((k, w) ∷ pairs) valid (first, all) = elim (Bool-cases (bytes_eq k key)) [
  | inl same ↦ rw same (valid, all)
  | inr other ↦ rw other (first, save-AllValid key v pairs valid all)
]

remove-AllValid : (key : Bytes) (pairs : Pairs) → AllValid pairs → AllValid (remove key pairs)
unfolding remove
remove-AllValid key [] all = tt
remove-AllValid key ((k, w) ∷ pairs) (first, all) = elim (Bool-cases (bytes_eq k key)) [
  | inl same ↦ rw same (remove-AllValid key pairs all)
  | inr other ↦ rw other (first, remove-AllValid key pairs all)
]

module _ (deps : Deps) (v : HasValidFees deps.storage) where
  execute-HasValidFees :
      (info : MessageInfo) (msg : ExecuteMsg) {result : Response × Storage}
      → execute deps info msg ≡ ok result
      → HasValidFees result.1
  unfolding execute execute_update_config execute_create_pair execute_update_pair_config
      execute_deregister
  execute-HasValidFees info (update_config owner token_code_id pair_code_id collector pairs_admin)
        h =
      >>=-elim _ _ h λ config e0 h. ensure-elim _ _ _ h λ same h. >>=-elim _ _ h λ u1 e1 h.
        >>=-elim _ _ h λ u2 e2 h. >>=-elim _ _ h λ u3 e3 h.
          subst (λ r. HasValidFees r.1) (ok-injective h)
            (record { registered = v.registered; pending = v.pending })
  execute-HasValidFees info (create_pair asset_infos fee_config) h = >>=-elim _ _ h λ checked e h.
      >>=-elim _ _ h λ config e0 h. ensure-elim _ _ _ h λ same h. ensure-elim _ _ _ h λ valid h.
        ensure-elim _ _ _ h λ free h. >>=-elim _ _ h λ msg e1 h.
          subst (λ r. HasValidFees r.1) (ok-injective h)
            (record { registered = v.registered; pending = is_valid-IsValid _ valid })
  execute-HasValidFees info (update_pair_config asset_infos fee_config) h =
      >>=-elim _ _ h λ checked e h. >>=-elim _ _ h λ config e0 h. ensure-elim _ _ _ h λ same h.
        ensure-elim _ _ _ h λ valid h. ok_or-elim _ _ _ h λ found e1 h.
          subst (λ r. HasValidFees r.1) (ok-injective h)
            (record {
              registered =
                  save-AllValid (pair_key asset_infos) (record found { fee_config = fee_config })
                    deps.storage.pairs (is_valid-IsValid fee_config valid) v.registered;
              pending = v.pending;
            })
  execute-HasValidFees info (deregister asset_infos) h = >>=-elim _ _ h λ checked e h.
      >>=-elim _ _ h λ config e0 h. ensure-elim _ _ _ h λ same h. ok_or-elim _ _ _ h λ found e1 h.
        subst (λ r. HasValidFees r.1) (ok-injective h)
          (record {
            registered = remove-AllValid (pair_key asset_infos) deps.storage.pairs v.registered;
            pending = v.pending;
          })

  reply-HasValidFees :
      (describe : ParseReplyError → String) (msg : ReplyResult) {result : Response × Storage}
      → reply describe deps msg ≡ ok result
      → HasValidFees result.1
  unfolding reply
  reply-HasValidFees describe msg h = ok_or-elim _ _ _ h λ tmp e0 h.
      map_err-elim _ _ _ h λ res e1 h. >>=-elim _ _ h λ address e2 h.
        subst (λ r. HasValidFees r.1) (ok-injective h)
          (record {
            registered =
                save-AllValid tmp.pair_key
                  (record { pair_address = address; fee_config = tmp.fee_config })
                  deps.storage.pairs (subst TmpValid e0 v.pending) v.registered;
            pending = v.pending;
          })

  instantiate-HasValidFees :
      (msg : InstantiateMsg) {result : Response × Storage}
      → instantiate deps msg ≡ ok result
      → HasValidFees result.1
  unfolding instantiate
  instantiate-HasValidFees msg h = >>=-elim _ _ h λ owner e0 h. >>=-elim _ _ h λ collector e1 h.
      >>=-elim _ _ h λ admin e2 h.
        subst (λ r. HasValidFees r.1) (ok-injective h)
          (record { registered = v.registered; pending = v.pending })

  migrate-HasValidFees : (admin : Addr) {s : Storage} → migrate deps admin ≡ ok s → HasValidFees s
  unfolding migrate migrate_config
  migrate-HasValidFees admin h = >>=-elim _ _ h λ validated e0 h. >>=-elim _ _ h λ config e1 h.
      subst HasValidFees (ok-injective h)
        (record { registered = v.registered; pending = v.pending })

-- One call of an entry point that succeeds; a call that fails leaves the storage alone.
pub data Step : Storage → Storage → Type 0 where
  instantiated :
      {s s' : Storage} (deps : Deps) (msg : InstantiateMsg) (resp : Response)
      → deps.storage ≡ s
      → instantiate deps msg ≡ ok (resp, s')
      → Step s s'
  executed :
      {s s' : Storage} (deps : Deps) (info : MessageInfo) (msg : ExecuteMsg) (resp : Response)
      → deps.storage ≡ s
      → execute deps info msg ≡ ok (resp, s')
      → Step s s'
  replied :
      {s s' : Storage} (describe : ParseReplyError → String) (deps : Deps) (msg : ReplyResult)
      (resp : Response)
      → deps.storage ≡ s
      → reply describe deps msg ≡ ok (resp, s')
      → Step s s'
  migrated :
      {s s' : Storage} (deps : Deps) (admin : Addr)
      → deps.storage ≡ s
      → migrate deps admin ≡ ok s'
      → Step s s'

abbrev pub empty_storage : Storage
empty_storage = record { config = absent; tmp_pair_info = none; pairs = [] }

-- What a series of calls makes of the empty storage.
pub data Reachable : Storage → Type 0 where
  created : Reachable empty_storage
  after : {s s' : Storage} → Reachable s → Step s s' → Reachable s'

Step-HasValidFees : {s s' : Storage} → Step s s' → HasValidFees s → HasValidFees s'
Step-HasValidFees (instantiated deps msg resp e h) v =
    instantiate-HasValidFees deps (subst HasValidFees (sym e) v) msg h
Step-HasValidFees (executed deps info msg resp e h) v =
    execute-HasValidFees deps (subst HasValidFees (sym e) v) info msg h
Step-HasValidFees (replied describe deps msg resp e h) v =
    reply-HasValidFees deps (subst HasValidFees (sym e) v) describe msg h
Step-HasValidFees (migrated deps admin e h) v =
    migrate-HasValidFees deps (subst HasValidFees (sym e) v) admin h

Reachable-HasValidFees : {s : Storage} → Reachable s → HasValidFees s
Reachable-HasValidFees created = record { registered = tt; pending = tt }
Reachable-HasValidFees (after r step) = Step-HasValidFees step (Reachable-HasValidFees r)

-- In every storage that a series of calls can reach, the fees that the factory answers for any two
-- assets are within the limits: at most 5% of a swap, at most 80% of that for the protocol.
pub query_fee_config-IsValid :
    (deps : Deps) (asset_infos : AssetInfo × AssetInfo) {resp : FeeInfoResponse}
    → Reachable deps.storage
    → query_fee_config deps asset_infos ≡ ok resp
    → IsValid resp.fee_config
unfolding query_fee_config
query_fee_config-IsValid deps asset_infos r h = >>=-elim _ _ h λ config e0 h.
    subst (λ (f : FeeInfoResponse). IsValid f.fee_config) (ok-injective h)
      (fees_of-lookup (pair_key asset_infos) deps.storage.pairs
        (Reachable-HasValidFees r).registered)
