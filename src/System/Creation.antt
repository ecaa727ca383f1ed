-- ===== src/System/Creation.antt =====
-- A pair from the owner's message to the register: contracts/prismswap_factory/src/contract.rs,
-- contracts/prismswap_pair/src/contract.rs and contracts/prismswap_token/src/contract.rs.
use prismswap_contracts.Base.{
  ℕ, ◌≡◌, ◌≢◌, refl, ◌∙◌, true, Option, arith as arithmetic, some, none, List, [], ok, String,
  Bytes, length, ◌<◌, ◌^◌, bind-ok, ok_or-some, unwrap_or,
}
use prismswap_contracts.Numbers.{Arith}
use prismswap_contracts.Asset.{Addr, StdResult, AssetInfo, MessageInfo}
use prismswap_contracts.Messages.{
  FeeConfig, Cw20Coin, PairInstantiateMsg, pair_instantiate, token_instantiate, wasm_instantiate,
  Payload, Response,
}
use prismswap_contracts.Chain.{Chain}
use prismswap_contracts.Querier.{check}
use prismswap_contracts.ParseReply.{ParseReplyError, is_utf8, succeeded}
use prismswap_contracts.ParseReply.Encode.{encode_response}
use prismswap_contracts.Factory.Fees.{default_fees}
use prismswap_contracts.Factory.Pairs.{PairConfig, lookup, pair_key}
use prismswap_contracts.Factory.State.{Config, current, Storage, Deps}
use prismswap_contracts.Factory.Execute.{create_pair, execute, check_both, reply}
use prismswap_contracts.Factory.Execute.Creates.{CanCreate, create_pair-runs, reply-registers}
use prismswap_contracts.Factory.Query.{query_pair, query_pair_info}
use prismswap_contracts.Pair.State.{
  Config as PairConfigItem, Storage as PairStorage, Deps as PairDeps, load-some,
}
use prismswap_contracts.Pair.Contract.{
  format_lp_token_name, instantiate_reply_id, instantiate, reply as pair_reply,
}
use prismswap_contracts.Pair.Contract.Founding.{
  founded, share_token_msg, instantiate_runs, reply_runs,
}
use prismswap_contracts.Pair.Query.{query_pair_info as query_pair_info_of}
use prismswap_contracts.Token.{instantiate as instantiate_token, TokenData}
use prismswap_contracts.Token.Runs.{instantiate_runs as token_runs}
use prismswap_contracts.Token.Valid.{IsAscii, HasAsciiSymbol, share_token-validates}

check_both_ok :
    (c : Chain) (infos : AssetInfo × AssetInfo)
    → check c infos.0 ≡ ok tt
    → check c infos.1 ≡ ok tt
    → check_both c infos ≡ ok tt
unfolding check_both
check_both_ok c infos first second = bind-ok _ first ∙ second

query_pair-registered :
    (c : Chain) (contract : Addr) (infos : AssetInfo × AssetInfo) (s : Storage) {p : PairConfig}
    → lookup (pair_key infos) s.pairs ≡ some p
    → query_pair (record { chain = c; contract = contract; storage = s }) infos
      ≡ c.pair_info p.pair_address
unfolding query_pair query_pair_info
query_pair-registered c contract infos s e = bind-ok _ (ok_or-some _ e)

pair_info_founded :
    (deps : PairDeps) {c : PairConfigItem}
    → deps.storage ≡ some c
    → query_pair_info_of deps ≡ ok c.pair_info
unfolding query_pair_info_of
pair_info_founded deps e = bind-ok _ (load-some e)

module _ (factory : Deps) (config : Config) (stored : factory.storage.config ≡ current config)
    (info : MessageInfo) (asset_infos : AssetInfo × AssetInfo) (fees : Option FeeConfig)
    (encode : Payload → Bytes) (arith : Arith) (pair token name : Bytes) where
  -- The message that the factory has the pair instantiated with.
  abbrev pub pair_msg : PairInstantiateMsg
  pair_msg = record {
    asset_infos = asset_infos;
    token_code_id = config.token_code_id;
    factory = factory.contract;
  }

  -- What the pair is given, in the same transaction.
  abbrev pub pair_deps : PairStorage → PairDeps
  pair_deps storage = record {
    arith = arith;
    chain = factory.chain;
    contract = pair;
    storage = storage;
  }

  module _ {S : Type 0} (set_contract_version : S → StdResult S)
      (create_accounts : S → List Cw20Coin → StdResult (S × ℕ)) (s s' : S) {accounts : S × ℕ}
      (versioned : set_contract_version s ≡ ok s')
      (no_balances : create_accounts s' [] ≡ ok accounts) where
    -- The factory's message, the instantiation of the pair that it sends, the instantiation of the
    -- share token that the pair sends, and the replies of the pair and of the factory succeed; the
    -- pair may mint the share token and knows its address, and the factory asks the pair.
    abbrev pub IsFounded : (ParseReplyError → String) → Type 0
    IsFounded describe =
        (created : Response × Storage) × (execute factory info (create_pair asset_infos fees)
          ≡ ok created)
        × (created.0.submessage
            ≡ some (
              1,
              wasm_instantiate config.pair_code_id (encode (pair_instantiate pair_msg)) []
                  (some config.pairs_admin) "",
            ))
        × (sent : Response) × (instantiate (pair_deps none) pair_msg
            ≡ ok (sent, some (founded pair pair_msg [])))
        × (sent.submessage
            ≡ some (
              instantiate_reply_id,
              wasm_instantiate config.token_code_id
                  (encode (token_instantiate (share_token_msg name pair))) [] none "",
            ))
        × (share : S × TokenData) × (instantiate_token set_contract_version create_accounts
              factory.chain.addr_validate s (share_token_msg name pair)
            ≡ ok share)
        × (share.1.mint ≡ some (record { minter = pair; cap = none }))
        × (known : Response) × (pair_reply (pair_deps (some (founded pair pair_msg [])))
              (succeeded (some (encode_response token [])))
            ≡ ok (known, some (founded pair pair_msg token)))
        × (query_pair_info_of (pair_deps (some (founded pair pair_msg token)))
            ≡ ok (record {
              asset_infos = asset_infos;
              contract_addr = pair;
              liquidity_token = token;
            }))
        × (answered : Response × Storage) × (reply describe (record factory { storage = created.1 })
              (succeeded (some (encode_response pair [])))
            ≡ ok answered)
        × ((c : Chain)
            → query_pair (record { chain = c; contract = factory.contract; storage = answered.1 })
                asset_infos
              ≡ c.pair_info pair)

    -- The owner can create a pair of assets with ASCII symbols. The factory has its configuration;
    -- the sender is the owner, the fees are within the limits and no pair has the key; the two
    -- assets differ, their addresses pass the check, and their symbols can be read and are ASCII,
    -- and ASCII text has as many bytes in upper case. The chain encodes messages, the addresses
    -- that it gives the pair and the share token are valid text of less than 2^32 bytes, and what
    -- the token contract calls of its library succeeds. Then the factory's message, the
    -- instantiation of the pair that it sends, the instantiation of the share token that the pair
    -- sends, and the replies of the pair and of the factory all succeed. Afterwards the pair may
    -- mint the share token, knows its address, and can be found in the factory.
    pub create_pair-founds :
        (describe : ParseReplyError → String)
        → CanCreate factory config stored info asset_infos fees
        → asset_infos.0 ≢ asset_infos.1
        → check factory.chain asset_infos.0 ≡ ok tt
        → check factory.chain asset_infos.1 ≡ ok tt
        → format_lp_token_name factory.chain asset_infos ≡ ok name
        → HasAsciiSymbol factory.chain asset_infos.0
        → HasAsciiSymbol factory.chain asset_infos.1
        → ((text : Bytes) → IsAscii text → length (factory.chain.to_uppercase text) ≡ length text)
        → ((msg : Payload) → factory.chain.to_binary msg ≡ ok (encode msg))
        → (is_utf8 pair ≡ true)
          × (length pair < 2 ^ 32)
          × (factory.chain.addr_validate pair ≡ ok pair)
        → (is_utf8 token ≡ true)
          × (length token < 2 ^ 32)
          × (factory.chain.addr_validate token ≡ ok token)
        → IsFounded describe
    create_pair-founds describe can differ first second named ascii0 ascii1 upper encoded
          (text, short, valid) (text', short', valid') =
        let (created, run, pending, sent) =
          create_pair-runs factory config stored info asset_infos fees encode
            (check_both_ok factory.chain asset_infos first second) encoded can in
        let (response, made, asks) =
          instantiate_runs (pair_deps none) pair_msg encode name first second differ named
            encoded in
        let (known, told) =
          reply_runs (pair_deps (some (founded pair pair_msg []))) pair_msg token [] refl text'
            short' (omega arithmetic) valid' in
        let (answered, run', found) =
          reply-registers describe (record factory { storage = created.1 }) (pair_key asset_infos)
            (unwrap_or fees default_fees) pair [] pending text short (omega arithmetic) valid in
        (
          created,
          run,
          sent,
          response,
          made,
          asks,
          _,
          token_runs set_contract_version create_accounts factory.chain.addr_validate s s'
              (share_token_msg name pair) pair versioned
              (share_token-validates factory.chain asset_infos [] _ upper ascii0 ascii1 named)
              no_balances refl valid,
          refl,
          known,
          told,
          pair_info_founded _ refl,
          answered,
          run',
          λ c. query_pair-registered c factory.contract asset_infos answered.1 found,
        )
