-- ===== src/Factory/Execute/Migration.antt =====
-- The factory before and after `migrate`: contracts/prismswap_factory/src/migration.rs.
use prismswap_contracts.Base.{◌≡◌, ◌≢◌, refl, ◌∙◌, ok, err, bind-ok, bind-err}
use prismswap_contracts.Asset.{Addr, parse_err, AssetInfo, MessageInfo}
use prismswap_contracts.Messages.{Response}
use prismswap_contracts.Factory.Pairs.{lookup, pair_key}
use prismswap_contracts.Factory.State.{
  Config, LegacyConfig, StoredConfig, legacy, current, Storage, load, load_legacy, migrate_config,
  Deps,
}
use prismswap_contracts.Factory.Execute.Owner.{execute_owner}
use prismswap_contracts.Factory.Query.{fees_of, query_fee_config}
use prismswap_contracts.Factory.Execute.{ExecuteMsg, execute, migrate}

load-legacy : {s : StoredConfig} {old : LegacyConfig} → s ≡ legacy old → load s ≡ err parse_err
unfolding load
load-legacy e = rw e

load_legacy-legacy :
    {s : StoredConfig} {old : LegacyConfig} → s ≡ legacy old → load_legacy s ≡ ok old
unfolding load_legacy
load_legacy-legacy e = rw e

-- The configuration after a migration.
abbrev pub migrated : LegacyConfig → Addr → Config
migrated old pairs_admin = record {
  owner = old.owner;
  pair_code_id = old.pair_code_id;
  token_code_id = old.token_code_id;
  collector = old.collector;
  pairs_admin = pairs_admin;
}

load-migrated :
    (old : LegacyConfig) (a : Addr) → load (current (migrated old a)) ≡ ok (migrated old a)
unfolding load
load-migrated old a = refl

module _ (deps : Deps) {old : LegacyConfig} (stored : deps.storage.config ≡ legacy old) where
  unloaded : load deps.storage.config ≡ err parse_err
  unloaded = load-legacy stored

  execute-refused :
      (info : MessageInfo) (msg : ExecuteMsg) (result : Response × Storage)
      → execute deps info msg ≢ ok result
  execute-refused info msg result h =
      let (config, loads, _) = execute_owner deps info msg h in absurd (cc (loads, stored))

  query_fee_config-refused :
      (infos : AssetInfo × AssetInfo) → query_fee_config deps infos ≡ err parse_err
  unfolding query_fee_config
  query_fee_config-refused infos = bind-err _ unloaded

  -- A factory of the version before stands still until it is migrated. With its configuration of that
  -- version no message is executed and no pair learns its fees; a migration with a valid address
  -- succeeds, keeps the owner, the codes, the collector, the register and the pair that waits, and
  -- sets the admin of the pairs; and then every pair learns the collector and the fees of its key.
  pub migrate_restores :
      (pairs_admin validated : Addr)
      → deps.chain.addr_validate pairs_admin ≡ ok validated
      → ((info : MessageInfo) (msg : ExecuteMsg) (result : Response × Storage)
          → execute deps info msg ≢ ok result)
        × ((infos : AssetInfo × AssetInfo) → query_fee_config deps infos ≡ err parse_err)
        × (after : Storage) × (migrate deps pairs_admin ≡ ok after)
        × (load after.config ≡ ok (migrated old validated))
        × (after.pairs ≡ deps.storage.pairs)
        × (after.tmp_pair_info ≡ deps.storage.tmp_pair_info)
        × ((infos : AssetInfo × AssetInfo)
            → query_fee_config (record deps { storage = after }) infos
              ≡ ok (record {
                collector = old.collector;
                fee_config = fees_of (lookup (pair_key infos) deps.storage.pairs);
              }))
  unfolding migrate migrate_config query_fee_config
  migrate_restores pairs_admin validated valid = (
    execute-refused,
    query_fee_config-refused,
    _,
    bind-ok _ valid ∙ bind-ok _ (load_legacy-legacy stored),
    load-migrated old validated,
    refl,
    refl,
    λ infos. bind-ok _ (load-migrated old validated),
  )
