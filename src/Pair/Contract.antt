-- ===== src/Pair/Contract.antt =====
-- The entry points of contracts/prismswap_pair/src/contract.rs: `instantiate`, `execute` with
-- `receive_cw20`, and `reply`, with `format_lp_token_name`.
pub mod Authority
pub mod Lifecycle
pub mod Calls
pub mod Founding
use prismswap_contracts.Base.{
  ℕ, zero, suc, Bool, true, false, not, ◌||◌, ◌&&◌, Option, none, some, [], ◌∷◌, ◌++◌, ok, ◌>>=◌,
  ◌>>◌, ensure, map_err, Bytes, bytes_eq, ascii, ltb, leb,
}
use prismswap_contracts.Asset.{
  Addr, AssetInfo, cw20, native, MessageInfo, asset_eq, is_native_token,
}
use prismswap_contracts.Messages.{
  Cw20ReceiveMsg, PairExecuteMsg, receive, provide_liquidity as provide_liquidity_msg,
  swap as swap_msg, PairHookMsg, hook_swap, withdraw_liquidity as withdraw_liquidity_msg,
  PairInstantiateMsg, token_instantiate, wasm_instantiate, addr, Response,
}
use prismswap_contracts.Chain.{Chain}
use prismswap_contracts.Querier.{check, query_token_symbol}
use prismswap_contracts.ParseReply.{ReplyResult, parse_reply_instantiate_data}
use prismswap_contracts.Pair.Error.{PairResult, unauthorized, doubling_assets, parse_reply_error}
use prismswap_contracts.Pair.Liquidity.{provide_liquidity, withdraw_liquidity}
use prismswap_contracts.Pair.State.{Config, Storage, load, try, Deps}
use prismswap_contracts.Pair.Trade.{swap}

-- `chars().take(n)` on UTF-8: a character ends where the next byte is no continuation byte.
unfoldable pub take_chars : ℕ → Bytes → Bytes
take_chars n [] = []
take_chars zero (b ∷ bs) = elim (leb 0x80 b && ltb b 0xc0) [
  | true ↦ b ∷ take_chars zero bs
  | false ↦ []
]
take_chars (suc n) (b ∷ bs) = elim (leb 0x80 b && ltb b 0xc0) [
  | true ↦ b ∷ take_chars (suc n) bs
  | false ↦ b ∷ take_chars n bs
]

abbrev pub token_symbol_max_length : ℕ
token_symbol_max_length = 6

unfoldable pub short_symbol : Chain → AssetInfo → PairResult Bytes
short_symbol c (native denom) = ok (take_chars token_symbol_max_length denom)
short_symbol c (cw20 contract_addr) = do
  token_symbol ← try (query_token_symbol c contract_addr)
  ok (take_chars token_symbol_max_length token_symbol)

unfoldable pub format_lp_token_name : Chain → AssetInfo × AssetInfo → PairResult Bytes
format_lp_token_name c asset_infos = do
  first ← short_symbol c asset_infos.0
  second ← short_symbol c asset_infos.1
  ok (c.to_uppercase (first ++ (ascii "-" ++ (second ++ ascii "-LP"))))

abbrev pub instantiate_reply_id : ℕ
instantiate_reply_id = 1

-- The response, and the stored item afterwards.
unfoldable pub instantiate : Deps → PairInstantiateMsg → PairResult (Response × Storage)
instantiate deps msg = do
  try (check deps.chain msg.asset_infos.0)
  try (check deps.chain msg.asset_infos.1)
  ensure (not (asset_eq msg.asset_infos.0 msg.asset_infos.1)) doubling_assets
  let config : Config = record {
    pair_info = record {
      contract_addr = deps.contract;
      liquidity_token = [];
      asset_infos = msg.asset_infos;
    };
    factory = msg.factory;
  }
  token_name ← format_lp_token_name deps.chain msg.asset_infos
  token_msg ← try (
      deps.chain.to_binary (
        token_instantiate (record {
          name = token_name;
          symbol = ascii "uLP";
          decimals = 6;
          initial_balances = [];
          mint = some (record { minter = deps.contract; cap = none });
        })))
  ok (
    record {
      messages = [];
      submessage =
          some (instantiate_reply_id, wasm_instantiate msg.token_code_id token_msg [] none "");
      attributes = [];
    },
    some config,
  )

-- `to.map(|a| addr_validate(a)).transpose()?`
unfoldable pub validate_to : Chain → Option Bytes → PairResult (Option Addr)
validate_to c (some to) = do validated ← try (c.addr_validate to); ok (some validated)
validate_to c none = ok none

-- Whether the asset is the token with this address.
unfoldable pub is_token : AssetInfo → Addr → Bool
is_token (cw20 contract_addr) sender = bytes_eq contract_addr sender
is_token (native denom) sender = false

unfoldable pub hook : Deps → MessageInfo → Cw20ReceiveMsg → PairHookMsg → PairResult Response
hook deps info cw20_msg (hook_swap belief_price max_spread to) = do
  config ← load deps.storage
  ensure
      (is_token config.pair_info.asset_infos.0 info.sender
        || is_token config.pair_info.asset_infos.1 info.sender)
      unauthorized
  to_addr ← validate_to deps.chain to
  swap deps info cw20_msg.sender (record { info = cw20 info.sender; amount = cw20_msg.amount })
      belief_price max_spread to_addr
hook deps info cw20_msg withdraw_liquidity_msg =
    withdraw_liquidity deps info cw20_msg.sender cw20_msg.amount

unfoldable pub receive_cw20 : Deps → MessageInfo → Cw20ReceiveMsg → PairResult Response
receive_cw20 deps info cw20_msg = do
  msg ← try (deps.chain.from_binary cw20_msg.msg)
  hook deps info cw20_msg msg

-- No message that is executed writes to the storage.
unfoldable pub execute : Deps → MessageInfo → PairExecuteMsg → PairResult Response
execute deps info (receive msg) = receive_cw20 deps info msg
execute deps info (provide_liquidity_msg assets slippage_tolerance receiver) = do
  try (check deps.chain assets.0.info)
  try (check deps.chain assets.1.info)
  provide_liquidity deps info assets slippage_tolerance receiver
execute deps info (swap_msg offer_asset belief_price max_spread to) = do
  try (check deps.chain offer_asset.info)
  ensure (is_native_token offer_asset.info) unauthorized
  to_addr ← validate_to deps.chain to
  swap deps info info.sender offer_asset belief_price max_spread to_addr

-- The address of the share token arrives, once.
unfoldable pub reply : Deps → ReplyResult → PairResult (Response × Storage)
reply deps msg = do
  config ← load deps.storage
  ensure (bytes_eq config.pair_info.liquidity_token []) unauthorized
  res ← map_err (λ e. parse_reply_error) (parse_reply_instantiate_data msg)
  liquidity_token ← try (deps.chain.addr_validate res.contract_address)
  let pair_info = config.pair_info
  ok (
    record {
      messages = [];
      submessage = none;
      attributes = ("liquidity_token_addr", addr res.contract_address) ∷ [];
    },
    some (record config { pair_info = record pair_info { liquidity_token = liquidity_token } }),
  )
