-- ===== src/Factory/Execute.antt =====
-- The entry points of contracts/prismswap_factory/src/contract.rs that write: `instantiate`,
-- `execute`, `reply` and `migrate`. Each gives the response and the storage afterwards.
pub mod Owner
pub mod Invariant
pub mod Register
pub mod Creates
pub mod Migration
pub mod Again
use prismswap_contracts.Base.{
  ℕ, not, Option, none, some, [], ◌∷◌, ok, err, String, ◌>>=◌, ◌>>◌, ensure, ok_or, unwrap_or,
  map_err, Bytes, bytes_eq, Bool, true, false,
}
use prismswap_contracts.Asset.{
  Addr, StdResult, StdError, generic_err, not_found, AssetInfo, MessageInfo,
}
use prismswap_contracts.Messages.{
  FeeConfig, pair_instantiate, wasm_instantiate, text, addr, info_pair, Response,
}
use prismswap_contracts.Chain.{Chain}
use prismswap_contracts.Querier.{check}
use prismswap_contracts.ParseReply.{ParseReplyError, ReplyResult, parse_reply_instantiate_data}
use prismswap_contracts.Factory.Fees.{is_valid, default_fees}
use prismswap_contracts.Factory.Pairs.{PairConfig, lookup, save, remove, pair_key}
use prismswap_contracts.Factory.State.{
  Config, StoredConfig, absent, current, Storage, load, migrate_config, Deps,
}

pub record InstantiateMsg : Type 0 where
  pub token_code_id : ℕ
  pub pair_code_id : ℕ
  pub collector : Addr
  pub owner : Addr
  pub pairs_admin : Addr

pub data ExecuteMsg : Type 0 where
  update_config :
      (owner : Option Addr) (token_code_id pair_code_id : Option ℕ)
      (collector pairs_admin : Option Addr)
      → ExecuteMsg
  update_pair_config : AssetInfo × AssetInfo → FeeConfig → ExecuteMsg
  create_pair : AssetInfo × AssetInfo → Option FeeConfig → ExecuteMsg
  deregister : AssetInfo × AssetInfo → ExecuteMsg

abbrev pub Effect : Type 0
Effect = StdResult (Response × Storage)

-- A response that shows what was done, and sends nothing.
abbrev pub done : String → Response
done name = record { messages = []; submessage = none; attributes = ("action", text name) ∷ [] }

unfoldable pub instantiate : Deps → InstantiateMsg → Effect
instantiate deps msg = do
  owner ← deps.chain.addr_validate msg.owner
  collector ← deps.chain.addr_validate msg.collector
  pairs_admin ← deps.chain.addr_validate msg.pairs_admin
  let s = deps.storage
  ok (
    record { messages = []; submessage = none; attributes = [] },
    record s {
      config = current (record {
        owner = owner;
        token_code_id = msg.token_code_id;
        pair_code_id = msg.pair_code_id;
        collector = collector;
        pairs_admin = pairs_admin;
      });
    },
  )

-- `if let Some(a) = address { addr_validate(a)?; … }`: only the check.
unfoldable pub check_address : Chain → Option Addr → StdResult (Unit {0})
check_address c (some a) = do validated ← c.addr_validate a; ok tt
check_address c none = ok tt

unfoldable pub execute_update_config :
    Deps → MessageInfo → Option Addr → Option ℕ → Option ℕ → Option Addr → Option Addr → Effect
execute_update_config deps info owner token_code_id pair_code_id collector pairs_admin = do
  let s = deps.storage
  config ← load s.config
  ensure (bytes_eq info.sender config.owner) (generic_err "unauthorized")
  check_address deps.chain owner
  check_address deps.chain collector
  check_address deps.chain pairs_admin
  ok (
    done "update_config",
    record s {
      config = current (record {
        owner = unwrap_or owner config.owner;
        token_code_id = unwrap_or token_code_id config.token_code_id;
        pair_code_id = unwrap_or pair_code_id config.pair_code_id;
        collector = unwrap_or collector config.collector;
        pairs_admin = unwrap_or pairs_admin config.pairs_admin;
      });
    },
  )

abbrev pub fees_not_valid : StdError
fees_not_valid = generic_err "The given fee configuration is not valid"

abbrev pub no_such_pair : StdError
no_such_pair = generic_err "There is no pair registered with the provided info"

-- `may_load(…)?.is_some()`, negated.
unfoldable pub is_free : Option PairConfig → Bool
is_free none = true
is_free (some _) = false

unfoldable pub execute_create_pair :
    Deps → MessageInfo → AssetInfo × AssetInfo → Option FeeConfig → Effect
execute_create_pair deps info asset_infos fees = do
  let s = deps.storage
  config ← load s.config
  ensure (bytes_eq info.sender config.owner) (generic_err "unauthorized")
  let fee_config = unwrap_or fees default_fees
  ensure (is_valid fee_config) fees_not_valid
  ensure (is_free (lookup (pair_key asset_infos) s.pairs)) (generic_err "Pair already exists")
  msg ← deps.chain.to_binary (
      pair_instantiate (record {
        asset_infos = asset_infos;
        token_code_id = config.token_code_id;
        factory = deps.contract;
      }))
  ok (
    record {
      messages = [];
      submessage =
          some (1, wasm_instantiate config.pair_code_id msg [] (some config.pairs_admin) "");
      attributes = ("action", text "create_pair") ∷ ("pair", info_pair asset_infos) ∷ [];
    },
    record s {
      tmp_pair_info = some (record { pair_key = pair_key asset_infos; fee_config = fee_config });
    },
  )

unfoldable pub execute_update_pair_config :
    Deps → MessageInfo → AssetInfo × AssetInfo → FeeConfig → Effect
execute_update_pair_config deps info asset_infos fee_config = do
  let s = deps.storage
  config ← load s.config
  ensure (bytes_eq info.sender config.owner) (generic_err "unauthorized")
  ensure (is_valid fee_config) fees_not_valid
  pair_config ← ok_or (lookup (pair_key asset_infos) s.pairs) no_such_pair
  ok (
    done "update_pair_config",
    record s {
      pairs = save (pair_key asset_infos) (record pair_config { fee_config = fee_config }) s.pairs;
    },
  )

unfoldable pub execute_deregister : Deps → MessageInfo → AssetInfo × AssetInfo → Effect
execute_deregister deps info asset_infos = do
  let s = deps.storage
  config ← load s.config
  ensure (bytes_eq info.sender config.owner) (generic_err "unauthorized")
  found ← ok_or (lookup (pair_key asset_infos) s.pairs) no_such_pair
  ok (done "deregister", record s { pairs = remove (pair_key asset_infos) s.pairs })

-- `asset_infos[0].check(api)?; asset_infos[1].check(api)?`
unfoldable pub check_both : Chain → AssetInfo × AssetInfo → StdResult (Unit {0})
check_both c asset_infos = do check c asset_infos.0; check c asset_infos.1

unfoldable pub execute : Deps → MessageInfo → ExecuteMsg → Effect
execute deps info (update_config owner token_code_id pair_code_id collector pairs_admin) =
    execute_update_config deps info owner token_code_id pair_code_id collector pairs_admin
execute deps info (create_pair asset_infos fee_config) = do
  check_both deps.chain asset_infos
  execute_create_pair deps info asset_infos fee_config
execute deps info (update_pair_config asset_infos fee_config) = do
  check_both deps.chain asset_infos
  execute_update_pair_config deps info asset_infos fee_config
execute deps info (deregister asset_infos) = do
  check_both deps.chain asset_infos
  execute_deregister deps info asset_infos

-- The pair that was being instantiated is registered. `describe` is the text of a parse error.
unfoldable pub reply : (ParseReplyError → String) → Deps → ReplyResult → Effect
reply describe deps msg = do
  let s = deps.storage
  tmp ← ok_or s.tmp_pair_info not_found
  res ← map_err (λ e. generic_err (describe e)) (parse_reply_instantiate_data msg)
  pair_address ← deps.chain.addr_validate res.contract_address
  ok (
    record {
      messages = [];
      submessage = none;
      attributes = ("pair_contract_addr", addr res.contract_address) ∷ [];
    },
    record s {
      pairs =
          save tmp.pair_key (record { pair_address = pair_address; fee_config = tmp.fee_config })
            s.pairs;
    },
  )

unfoldable pub migrate : Deps → (pairs_admin : Addr) → StdResult Storage
migrate deps pairs_admin = do
  validated ← deps.chain.addr_validate pairs_admin
  migrate_config deps.storage validated
