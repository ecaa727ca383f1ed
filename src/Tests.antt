-- ===== src/Tests.antt =====
-- A small chain to run the contracts on: the pair of a native coin and a token, with its factory.
mod Price
mod Pool
mod Liquidity
mod Register
mod Answer
mod Route
mod Share
mod Trading
mod Shares
mod Answered
mod Together
mod Pages
mod Creates
mod Received
mod Vectors
mod Founded
mod Exit
mod Returned
mod Migrated
mod Routed
mod Intake
mod Refused
use prismswap_contracts.Base.{
  ℕ, ◌-◌, ◌*◌, ◌^◌, ◌&&◌, leb, if◌then◌else◌, none, some, [], ◌∷◌, ok, Bytes, ascii, map,
}
use prismswap_contracts.Numbers.Reference.{reference}
use prismswap_contracts.Asset.{Addr, AssetInfo, cw20, native, Asset, Coin, MessageInfo, PairInfo}
use prismswap_contracts.Messages.{
  FeeConfig, FeeInfoResponse, Cw20ExecuteMsg, transfer, transfer_from, mint, burn, send, Payload,
  cw20_execute, pair_execute, pair_instantiate, token_instantiate, CosmosMsg, wasm_execute,
  bank_send, PairHookMsg, hook_swap, withdraw_liquidity,
}
use prismswap_contracts.Chain.{Chain}
use prismswap_contracts.Pair.State.{Config, Deps}

abbrev pub alice : Addr
alice = ascii "alice"

abbrev pub owner : Addr
owner = ascii "owner"

abbrev pub pair_address : Addr
pair_address = ascii "pair"

abbrev pub factory_address : Addr
factory_address = ascii "factory"

abbrev pub collector : Addr
collector = ascii "collector"

abbrev pub share_token : Addr
share_token = ascii "share"

abbrev pub coin_info : AssetInfo
coin_info = native (ascii "uusd")

abbrev pub token_info : AssetInfo
token_info = cw20 (ascii "token")

abbrev pub asset_infos : AssetInfo × AssetInfo
asset_infos = (coin_info, token_info)

abbrev pub fees : FeeConfig
fees = record { total_fee = 3 * 10 ^ 15; protocol_fee = 334 * 10 ^ 15 }

abbrev pub fee_info : FeeInfoResponse
fee_info = record { fee_config = fees; collector = collector }

-- The amount, with a letter for the operation.
abbrev pub encode : Cw20ExecuteMsg → Bytes
encode (transfer recipient amount) = 116 ∷ amount ∷ []
encode (transfer_from account recipient amount) = 102 ∷ amount ∷ []
encode (mint recipient amount) = 109 ∷ amount ∷ []
encode (burn amount) = 98 ∷ amount ∷ []
encode (send contract amount msg) = 115 ∷ amount ∷ msg

abbrev pub encode_payload : Payload → Bytes
encode_payload (cw20_execute msg) = encode msg
encode_payload (pair_execute msg) = ascii "e"
encode_payload (pair_instantiate msg) = ascii "p"
encode_payload (token_instantiate msg) = ascii "i"

-- The empty message is a withdrawal, any other a swap.
abbrev decode : Bytes → PairHookMsg
decode [] = withdraw_liquidity
decode (b ∷ bs) = hook_swap none none none

abbrev pub make_coin : Bytes → ℕ → Coin
make_coin denom amount = record { denom = denom; amount = amount }

abbrev pub send_asset : AssetInfo → ℕ → Addr → CosmosMsg
send_asset (cw20 token) amount to = wasm_execute token (116 ∷ amount ∷ []) []
send_asset (native denom) amount to = bank_send to (make_coin denom amount ∷ [])

abbrev pub pair_info : PairInfo
pair_info = record {
  asset_infos = asset_infos;
  contract_addr = pair_address;
  liquidity_token = share_token;
}

-- A byte in upper case, where it is ASCII.
abbrev pub upper : ℕ → ℕ
upper b = if leb 97 b && leb b 122 then b - 32 else b

-- A chain on which every account has so many coins and tokens, and the share token so many shares.
abbrev pub chain : (coins tokens shares : ℕ) → Chain
chain coins tokens shares = record {
  addr_validate = λ a. ok a;
  to_binary = λ msg. ok (encode_payload msg);
  from_binary = λ msg. ok (decode msg);
  bank_balance = λ account denom. ok coins;
  cw20_balance = λ token account. ok tokens;
  token_info = λ token. ok (record { symbol = ascii "TOKEN"; total_supply = shares });
  fee_info = λ factory infos. ok fee_info;
  all_balances = λ account. ok (make_coin (ascii "uusd") coins ∷ []);
  factory_config = λ factory. ok (record {
    owner = owner;
    token_code_id = 5;
    pair_code_id = 7;
    collector = collector;
    pairs_admin = owner;
  });
  factory_pair = λ factory infos. ok pair_info;
  factory_pairs = λ factory start_after limit. ok (pair_info ∷ []);
  pair_info = λ pair. ok pair_info;
  simulation = λ pair asset.
      ok (record { return_amount = asset.amount; spread_amount = 0; commission_amount = 0 });
  reverse_simulation = λ pair asset.
      ok (record { offer_amount = asset.amount; spread_amount = 0; commission_amount = 0 });
  transfer_msg = λ asset to. ok (send_asset asset.info asset.amount to);
  to_uppercase = map upper;
}

abbrev pub config : Config
config = record { pair_info = pair_info; factory = factory_address }

abbrev pub pair_deps : (coins tokens shares : ℕ) → Deps
pair_deps coins tokens shares = record {
  arith = reference;
  chain = chain coins tokens shares;
  contract = pair_address;
  storage = some config;
}

abbrev pub coin : ℕ → Asset
coin amount = record { info = coin_info; amount = amount }

abbrev pub token : ℕ → Asset
token amount = record { info = token_info; amount = amount }

-- A message of `alice` with so many coins.
abbrev pub with_coins : ℕ → MessageInfo
with_coins amount = record { sender = alice; funds = make_coin (ascii "uusd") amount ∷ [] }

-- A message of a contract, without coins.
abbrev pub sent_by : Addr → MessageInfo
sent_by sender = record { sender = sender; funds = [] }
