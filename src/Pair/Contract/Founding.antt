-- ===== src/Pair/Contract/Founding.antt =====
-- When `instantiate` and `reply` of contracts/prismswap_pair/src/contract.rs succeed.
use prismswap_contracts.Base.{
  ◌≡◌, ◌≢◌, refl, ◌∙◌, true, not, some, none, [], ok, inl, inr, Bool-cases, Bytes, ascii,
  bytes_eq_iff, length, ◌<◌, ◌^◌, bind-ok, map_err-ok, ensure-true,
}
use prismswap_contracts.Asset.{Addr, AssetInfo, asset_eq, asset_eq_iff}
use prismswap_contracts.Messages.{
  PairInstantiateMsg, TokenInstantiateMsg, token_instantiate, wasm_instantiate, Payload, Response,
}
use prismswap_contracts.Querier.{check}
use prismswap_contracts.ParseReply.{is_utf8, succeeded}
use prismswap_contracts.ParseReply.Encode.{encode_response}
use prismswap_contracts.ParseReply.RoundTrip.{parse-encode_response}
use prismswap_contracts.Pair.State.{Config, load-some, Deps}
use prismswap_contracts.Pair.Contract.{
  format_lp_token_name, instantiate_reply_id, instantiate, reply,
}

-- The item of the pair at `contract` with this share token.
abbrev pub founded : Addr → PairInstantiateMsg → Addr → Config
founded contract msg token = record {
  pair_info = record {
    asset_infos = msg.asset_infos;
    contract_addr = contract;
    liquidity_token = token;
  };
  factory = msg.factory;
}

-- The share token that the pair at `contract` asks for.
abbrev pub share_token_msg : Bytes → Addr → TokenInstantiateMsg
share_token_msg name contract = record {
  name = name;
  symbol = ascii "uLP";
  decimals = 6;
  initial_balances = [];
  mint = some (record { minter = contract; cap = none });
}

not-asset_eq : (a b : AssetInfo) → a ≢ b → not (asset_eq a b) ≡ true
not-asset_eq a b ne = elim (Bool-cases (asset_eq a b)) [
  | inl same ↦ absurd (ne ((asset_eq_iff a b).0 same))
  | inr differ ↦ rw (differ) refl
]

module _ (deps : Deps) (msg : PairInstantiateMsg) where
  -- A pair of two different assets, whose addresses pass their check, is instantiated.
  pub instantiate_runs :
      (encode : Payload → Bytes) (name : Bytes)
      → check deps.chain msg.asset_infos.0 ≡ ok tt
      → check deps.chain msg.asset_infos.1 ≡ ok tt
      → msg.asset_infos.0 ≢ msg.asset_infos.1
      → format_lp_token_name deps.chain msg.asset_infos ≡ ok name
      → ((m : Payload) → deps.chain.to_binary m ≡ ok (encode m))
      → (response : Response) × (instantiate deps msg
          ≡ ok (response, some (founded deps.contract msg [])))
        × (response.submessage
            ≡ some (
              instantiate_reply_id,
              wasm_instantiate msg.token_code_id
                  (encode (token_instantiate (share_token_msg name deps.contract)))
                  []
                  none
                  "",
            ))
  unfolding instantiate
  instantiate_runs encode name first second differ named encoded = (
    _,
    map_err-ok _ _ first
        ∙ map_err-ok _ _ second
        ∙ ensure-true _ _ (not-asset_eq _ _ differ)
        ∙ bind-ok _ named
        ∙ map_err-ok _ _ (encoded _),
    refl,
  )

  -- The protobuf answer with a valid address becomes the share token of a pair that has none.
  pub reply_runs :
      (token data_field : Bytes)
      → deps.storage ≡ some (founded deps.contract msg [])
      → is_utf8 token ≡ true
      → length token < 2 ^ 32
      → length data_field < 2 ^ 32
      → deps.chain.addr_validate token ≡ ok token
      → (response : Response) × (reply deps (succeeded (some (encode_response token data_field)))
          ≡ ok (response, some (founded deps.contract msg token)))
  unfolding reply
  reply_runs token data_field stored text short short' valid = (
    _,
    bind-ok _ (load-some stored)
        ∙ ensure-true _ _ ((bytes_eq_iff _ _).1 refl)
        ∙ map_err-ok _ _ (parse-encode_response token data_field text short short')
        ∙ map_err-ok _ _ valid,
  )
