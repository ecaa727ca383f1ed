-- ===== src/Factory/Execute/Owner.antt =====
-- Every change that is made through `execute` is the owner's.
use prismswap_contracts.Base.{
  ◌≡◌, ok, ◌>>=◌, ensure, bytes_eq, bytes_eq_iff, >>=-elim, ensure-elim, ok-injective, ap,
}
use prismswap_contracts.Asset.{StdResult, StdError, MessageInfo}
use prismswap_contracts.Messages.{Response}
use prismswap_contracts.Factory.State.{
  Config, StoredConfig, absent, legacy, current, Storage, load, Deps,
}
use prismswap_contracts.Factory.Execute.{
  ExecuteMsg, update_config, update_pair_config, create_pair, deregister, execute,
  execute_update_config, execute_create_pair, execute_update_pair_config, execute_deregister,
}

pub load-eq-ok : (s : StoredConfig) {config : Config} → load s ≡ ok config → s ≡ current config
unfolding load
load-eq-ok absent h = cc
load-eq-ok (legacy c) h = cc
load-eq-ok (current c) h = ap current (ok-injective h)

-- The stored owner sent the message.
abbrev pub SentByOwner : Deps → MessageInfo → Type 0
SentByOwner deps info =
    (config : Config) × (deps.storage.config ≡ current config) × (info.sender ≡ config.owner)

-- The guard that the four handlers begin with.
guarded :
    {A : Type 0} (deps : Deps) (info : MessageInfo) (e : StdError) (k : Config → StdResult A)
    {a : A}
    → (load deps.storage.config >>= λ config.
        ensure (bytes_eq info.sender config.owner) e >>= λ _. k config)
      ≡ ok a
    → SentByOwner deps info
guarded deps info e k h = >>=-elim _ _ h λ config e0 h. ensure-elim _ _ _ h λ same h.
    (config, load-eq-ok deps.storage.config e0, (bytes_eq_iff info.sender config.owner).0 same)

-- Where `execute` succeeds, the sender is the owner that the storage named before.
pub execute_owner :
    (deps : Deps) (info : MessageInfo) (msg : ExecuteMsg) {result : Response × Storage}
    → execute deps info msg ≡ ok result
    → SentByOwner deps info
unfolding execute execute_update_config execute_create_pair execute_update_pair_config
    execute_deregister
execute_owner deps info (update_config owner token_code_id pair_code_id collector pairs_admin) h =
    guarded deps info _ _ h
execute_owner deps info (create_pair asset_infos fee_config) h =
    >>=-elim _ _ h λ checked e h. guarded deps info _ _ h
execute_owner deps info (update_pair_config asset_infos fee_config) h =
    >>=-elim _ _ h λ checked e h. guarded deps info _ _ h
execute_owner deps info (deregister asset_infos) h =
    >>=-elim _ _ h λ checked e h. guarded deps info _ _ h
