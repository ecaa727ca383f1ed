-- ===== src/Factory/Execute/Creates.antt =====
-- When a pair is created, and that its answer registers it.
use prismswap_contracts.Base.{
  ◌≡◌, ◌↔◌, refl, ◌∙◌, ap, true, Option, some, none, [], ok, Bytes, String, ◌<◌, length, ◌^◌,
  bytes_eq_iff, >>=-elim, ensure-elim, ensure-true, bind-ok, map_err-ok, ok_or-some, unwrap_or,
}
use prismswap_contracts.Asset.{AssetInfo, MessageInfo}
use prismswap_contracts.Messages.{FeeConfig, Payload, pair_instantiate, wasm_instantiate, Response}
use prismswap_contracts.ParseReply.{ParseReplyError, is_utf8, succeeded}
use prismswap_contracts.ParseReply.Encode.{encode_response}
use prismswap_contracts.ParseReply.RoundTrip.{parse-encode_response}
use prismswap_contracts.Factory.Fees.{IsValid, is_valid-IsValid, IsValid-is_valid, default_fees}
use prismswap_contracts.Factory.Pairs.{PairConfig, lookup, pair_key}
use prismswap_contracts.Factory.Pairs.Map.{lookup-save_self}
use prismswap_contracts.Factory.State.{Config, current, Storage, load, Deps}
use prismswap_contracts.Factory.Execute.{
  create_pair, execute, execute_create_pair, check_both, is_free, reply,
}
use prismswap_contracts.Factory.Execute.Register.{is_free-none}

load-current : (config : Config) → load (current config) ≡ ok config
unfolding load
load-current config = refl

none-is_free : {o : Option PairConfig} → o ≡ none → is_free o ≡ true
unfolding is_free
none-is_free e = rw e

-- The protobuf answer with a valid address registers the pair that waits.
pub reply-registers :
    (describe : ParseReplyError → String) (deps : Deps) (key : Bytes) (fees : FeeConfig)
    (address data_field : Bytes)
    → deps.storage.tmp_pair_info ≡ some (record { pair_key = key; fee_config = fees })
    → is_utf8 address ≡ true
    → length address < 2 ^ 32
    → length data_field < 2 ^ 32
    → deps.chain.addr_validate address ≡ ok address
    → (answered : Response × Storage) × (reply describe deps
          (succeeded (some (encode_response address data_field)))
        ≡ ok answered)
      × (lookup key answered.1.pairs ≡ some (record { pair_address = address; fee_config = fees }))
unfolding reply
reply-registers describe deps key fees address data_field pending text short short' valid = (
  _,
  bind-ok _ (ok_or-some _ pending)
      ∙ map_err-ok _ _ (parse-encode_response address data_field text short short')
      ∙ bind-ok _ valid,
  lookup-save_self key _ deps.storage.pairs,
)

module _ (deps : Deps) (config : Config) (stored : deps.storage.config ≡ current config) where
  loads : load deps.storage.config ≡ ok config
  loads = ap load stored ∙ load-current config

  -- What the owner has to respect to create a pair.
  abbrev pub CanCreate : MessageInfo → AssetInfo × AssetInfo → Option FeeConfig → Type 0
  CanCreate info asset_infos fees =
      (info.sender ≡ config.owner)
      × IsValid (unwrap_or fees default_fees)
      × (lookup (pair_key asset_infos) deps.storage.pairs ≡ none)

  module _ (info : MessageInfo) (asset_infos : AssetInfo × AssetInfo) (fees : Option FeeConfig)
      (encode : Payload → Bytes) (checked : check_both deps.chain asset_infos ≡ ok tt)
      (encoded : (msg : Payload) → deps.chain.to_binary msg ≡ ok (encode msg)) where
    -- The message that instantiates the pair is sent with the id 1, and the key and the fees wait.
    pub create_pair-runs :
        CanCreate info asset_infos fees
        → (created : Response × Storage) × (execute deps info (create_pair asset_infos fees)
            ≡ ok created)
          × (created.1.tmp_pair_info
              ≡ some (record {
                pair_key = pair_key asset_infos;
                fee_config = unwrap_or fees default_fees;
              }))
          × (created.0.submessage
              ≡ some (
                1,
                wasm_instantiate config.pair_code_id
                    (encode (
                      pair_instantiate (record {
                        asset_infos = asset_infos;
                        token_code_id = config.token_code_id;
                        factory = deps.contract;
                      })))
                    []
                    (some config.pairs_admin)
                    "",
              ))
    unfolding execute execute_create_pair
    create_pair-runs (owner, valid, free) = (
      _,
      bind-ok _ checked
          ∙ bind-ok _ loads
          ∙ ensure-true _ _ ((bytes_eq_iff _ _).1 owner)
          ∙ ensure-true _ _ (IsValid-is_valid _ valid)
          ∙ ensure-true _ _ (none-is_free free)
          ∙ bind-ok _ (encoded _),
      refl,
      refl,
    )

    create_pair-respects :
        {created : Response × Storage}
        → execute deps info (create_pair asset_infos fees) ≡ ok created
        → CanCreate info asset_infos fees
    unfolding execute execute_create_pair
    create_pair-respects h = >>=-elim _ _ h λ u e h. >>=-elim _ _ h λ found e0 h.
        ensure-elim _ _ _ h λ owner h. ensure-elim _ _ _ h λ valid h. ensure-elim _ _ _ h λ free h.
          let same : found ≡ config = cc (e0, loads) in
          (
            (bytes_eq_iff _ _).0 owner ∙ ap (λ (c : Config). c.owner) same,
            is_valid-IsValid _ valid,
            is_free-none _ free,
          )

    -- A creation is refused for three reasons only. Where the factory has its configuration, the
    -- addresses of the assets pass their check and the message can be encoded, a pair can be created
    -- exactly if the sender is the owner, the fees are within the limits, and no pair has its key.
    pub create_pair_iff :
        ((created : Response × Storage) × (execute deps info (create_pair asset_infos fees)
            ≡ ok created))
        ↔ CanCreate info asset_infos fees
    create_pair_iff = (
      λ (created, h). create_pair-respects h,
      λ can. let (created, run, _, _) = create_pair-runs can in (created, run),
    )

    -- A pair that can be created is registered. Where the factory has its configuration, the addresses of
    -- the assets pass their check and the message can be encoded, where the sender is the owner, the
    -- fees are within the limits and no pair has the key, and where the answer to the instantiation is
    -- its protobuf encoding with a valid address, the creation and then the reply succeed, and
    -- afterwards the register has that address and the fees under the key of the assets.
    pub create_pair-registers :
        (describe : ParseReplyError → String) (address data_field : Bytes)
        → CanCreate info asset_infos fees
        → is_utf8 address ≡ true
        → length address < 2 ^ 32
        → length data_field < 2 ^ 32
        → deps.chain.addr_validate address ≡ ok address
        → (created : Response × Storage) × (execute deps info (create_pair asset_infos fees)
            ≡ ok created)
          × (answered : Response × Storage) × (reply describe
                (record deps { storage = created.1 })
                (succeeded (some (encode_response address data_field)))
              ≡ ok answered)
          × (lookup (pair_key asset_infos) answered.1.pairs
              ≡ some (record { pair_address = address; fee_config = unwrap_or fees default_fees }))
    create_pair-registers describe address data_field can text short short' valid =
        let (created, run, pending, sent) = create_pair-runs can in
        let (answered, run', found) =
          reply-registers describe (record deps { storage = created.1 }) (pair_key asset_infos)
            (unwrap_or fees default_fees) address data_field pending text short short' valid in
        (created, run, answered, run', found)
