-- ===== src/Factory/State.antt =====
-- The storage of the factory: contracts/prismswap_factory/src/state.rs and migration.rs.
use prismswap_contracts.Base.{ℕ, Option, ok, err, ◌>>=◌, Bytes}
use prismswap_contracts.Asset.{Addr, StdResult, not_found, parse_err}
use prismswap_contracts.Messages.{FeeConfig}
use prismswap_contracts.Chain.{Chain}
use prismswap_contracts.Factory.Pairs.{Pairs}

pub record Config : Type 0 where
  pub owner : Addr
  pub pair_code_id : ℕ
  pub token_code_id : ℕ
  pub collector : Addr
  pub pairs_admin : Addr

-- The pair that is being instantiated.
pub record TmpPairInfo : Type 0 where
  pub pair_key : Bytes
  pub fee_config : FeeConfig

-- What stands under the key "config": the item of this version, or of the one before.
pub record LegacyConfig : Type 0 where
  pub owner : Addr
  pub pair_code_id : ℕ
  pub token_code_id : ℕ
  pub collector : Addr

pub data StoredConfig : Type 0 where
  absent : StoredConfig
  legacy : LegacyConfig → StoredConfig
  current : Config → StoredConfig

pub record Storage : Type 0 where
  pub config : StoredConfig
  pub tmp_pair_info : Option TmpPairInfo
  pub pairs : Pairs

-- `CONFIG.load`: the item of the version before lacks a field, which is a parse error.
unfoldable pub load : StoredConfig → StdResult Config
load absent = err not_found
load (legacy c) = err parse_err
load (current c) = ok c

-- `LEGACY.load`: a field that is not asked for is passed over.
unfoldable pub load_legacy : StoredConfig → StdResult LegacyConfig
load_legacy absent = err not_found
load_legacy (legacy c) = ok c
load_legacy (current c) = ok (record {
  owner = c.owner;
  pair_code_id = c.pair_code_id;
  token_code_id = c.token_code_id;
  collector = c.collector;
})

unfoldable pub migrate_config : Storage → Addr → StdResult Storage
migrate_config s pairs_admin = do
  legacy_config ← load_legacy s.config
  ok (record s {
    config = current (record {
      owner = legacy_config.owner;
      pair_code_id = legacy_config.pair_code_id;
      token_code_id = legacy_config.token_code_id;
      collector = legacy_config.collector;
      pairs_admin = pairs_admin;
    });
  })

pub record Deps : Type 0 where
  pub chain : Chain
  pub contract : Addr
  pub storage : Storage
