-- ===== src/Tests/Migrated.antt =====
-- A factory of the version before.
use prismswap_contracts.Base.{◌≡◌, ◌≢◌, refl, none, [], ◌∷◌, ok, err}
use prismswap_contracts.Asset.{AssetInfo, MessageInfo, parse_err}
use prismswap_contracts.Messages.{Response}
use prismswap_contracts.Factory.Pairs.{lookup, pair_key}
use prismswap_contracts.Factory.State.{LegacyConfig, legacy, Storage, load}
use prismswap_contracts.Factory.Query.{fees_of, query_fee_config}
use prismswap_contracts.Factory.Execute.{ExecuteMsg, execute, migrate}
use prismswap_contracts.Factory.Execute.Migration.{migrated, migrate_restores}
use prismswap_contracts.Tests.Register.{at, key, registered}
use prismswap_contracts.Tests.{owner, collector}

abbrev old : LegacyConfig
old = record { owner = owner; pair_code_id = 7; token_code_id = 5; collector = collector }

abbrev old_storage : Storage
old_storage = record { config = legacy old; tmp_pair_info = none; pairs = (key, registered) ∷ [] }

migrate_restores_example :
    ((info : MessageInfo) (msg : ExecuteMsg) (result : Response × Storage)
      → execute (at old_storage) info msg ≢ ok result)
    × ((infos : AssetInfo × AssetInfo) → query_fee_config (at old_storage) infos ≡ err parse_err)
    × (after : Storage) × (migrate (at old_storage) owner ≡ ok after)
    × (load after.config ≡ ok (migrated old owner))
    × (after.pairs ≡ old_storage.pairs)
    × (after.tmp_pair_info ≡ none)
    × ((infos : AssetInfo × AssetInfo)
        → query_fee_config (at after) infos
          ≡ ok (record {
            collector = collector;
            fee_config = fees_of (lookup (pair_key infos) old_storage.pairs);
          }))
migrate_restores_example = migrate_restores (at old_storage) refl owner owner refl
