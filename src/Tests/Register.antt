-- ===== src/Tests/Register.antt =====
-- The factory on a small chain.
use prismswap_contracts.Base.{
  ◌≢◌, ◌≡◌, false, refl, none, some, [], ◌∷◌, ok, Bytes, String, ascii, bytes_eq, bytes_ltb, ◌>>=◌,
  ok_or, ensure, map_err, unwrap_or, ◌*◌, ◌^◌,
}
use prismswap_contracts.Asset.{native, as_bytes}
use prismswap_contracts.Messages.{
  FeeConfig, FeeInfoResponse, wasm_instantiate, text, addr, info_pair, Response,
}
use prismswap_contracts.Querier.{check}
use prismswap_contracts.ParseReply.{
  ParseReplyError, ReplyResult, succeeded, parse_reply_instantiate_data,
  parse_instantiate_response_data, parse_protobuf_string, parse_protobuf_bytes,
  parse_protobuf_length_prefixed, parse_protobuf_varint, varint_loop, is_utf8, utf8_from, utf8_lead,
}
use prismswap_contracts.Factory.Fees.{is_valid, default_fees, default_fees-IsValid, IsValid}
use prismswap_contracts.Factory.Pairs.{PairConfig, lookup, save, remove, sort_infos, pair_key}
use prismswap_contracts.Factory.Pairs.Key.{pair_key_collides}
use prismswap_contracts.Factory.State.{Config, TmpPairInfo, Storage, current, load, Deps}
use prismswap_contracts.Factory.Query.{fees_of, query_fee_config}
use prismswap_contracts.Factory.Execute.{
  InstantiateMsg, update_pair_config, create_pair, deregister, done, instantiate, execute,
  execute_create_pair, execute_update_pair_config, execute_deregister, check_both, is_free, reply,
}
use prismswap_contracts.Factory.Refines.{RegisterStep, view, Step-refines}
use prismswap_contracts.Factory.Execute.Owner.{SentByOwner, execute_owner}
use prismswap_contracts.Factory.Execute.Invariant.{
  Step, Reachable, created, after, instantiated, executed, replied, empty_storage,
  query_fee_config-IsValid,
}
use prismswap_contracts.Factory.Execute.Again.{deregister_makes_room}
use prismswap_contracts.Tests.{
  owner, pair_address, factory_address, collector, coin_info, token_info, asset_infos, fees, chain,
  sent_by, encode_payload,
}

abbrev pub factory_config : Config
factory_config = record {
  owner = owner;
  pair_code_id = 7;
  token_code_id = 5;
  collector = collector;
  pairs_admin = owner;
}

abbrev pub key : Bytes
key = ascii "tokenuusd"

abbrev pub registered : PairConfig
registered = record { pair_address = pair_address; fee_config = fees }

abbrev pending : TmpPairInfo
pending = record { pair_key = key; fee_config = fees }

abbrev pub empty_register : Storage
empty_register = record { config = current factory_config; tmp_pair_info = none; pairs = [] }

abbrev awaiting : Storage
awaiting = record { config = current factory_config; tmp_pair_info = some pending; pairs = [] }

abbrev pub one_pair : Storage
one_pair = record {
  config = current factory_config;
  tmp_pair_info = some pending;
  pairs = (key, registered) ∷ [];
}

abbrev pub at : Storage → Deps
at storage = record { chain = chain 0 0 0; contract = factory_address; storage = storage }

abbrev create_response : Response
create_response = record {
  messages = [];
  submessage = some (1, wasm_instantiate 7 (ascii "p") [] (some owner) "");
  attributes = ("action", text "create_pair") ∷ ("pair", info_pair asset_infos) ∷ [];
}

create_run :
    execute (at empty_register) (sent_by owner) (create_pair asset_infos none)
    ≡ ok (create_response, awaiting)
unfolding execute execute_create_pair check_both check load bytes_eq bytes_ltb ensure ◌>>=◌
    unwrap_or default_fees is_valid is_free lookup pair_key sort_infos as_bytes
create_run = refl

abbrev answer : ReplyResult
answer = succeeded (some (10 ∷ 4 ∷ pair_address))

abbrev reply_response : Response
reply_response = record {
  messages = [];
  submessage = none;
  attributes = ("pair_contract_addr", addr pair_address) ∷ [];
}

abbrev pub describe : ParseReplyError → String
describe e = "parse error"

reply_run : reply describe (at awaiting) answer ≡ ok (reply_response, one_pair)
unfolding reply ok_or save bytes_eq map_err ◌>>=◌ parse_reply_instantiate_data
    parse_instantiate_response_data parse_protobuf_string parse_protobuf_bytes
    parse_protobuf_length_prefixed parse_protobuf_varint varint_loop is_utf8 utf8_from utf8_lead
    ensure
reply_run = refl

reply_step : Step awaiting one_pair
reply_step = replied describe (at awaiting) answer _ refl reply_run

execute_owner_example : SentByOwner (at empty_register) (sent_by owner)
execute_owner_example =
    execute_owner (at empty_register) (sent_by owner) (create_pair asset_infos none) create_run

-- 1% and half of it.
abbrev new_fees : FeeConfig
new_fees = record { total_fee = 10 ^ 16; protocol_fee = 5 * 10 ^ 17 }

abbrev changed : Storage
changed = record {
  config = current factory_config;
  tmp_pair_info = some pending;
  pairs = (key, record { pair_address = pair_address; fee_config = new_fees }) ∷ [];
}

update_run :
    execute (at one_pair) (sent_by owner) (update_pair_config asset_infos new_fees)
    ≡ ok (done "update_pair_config", changed)
unfolding execute execute_update_pair_config check_both check load bytes_eq bytes_ltb ensure ◌>>=◌
    is_valid lookup save ok_or pair_key sort_infos as_bytes
update_run = refl

Step-refines_example : RegisterStep (view one_pair) (view changed)
Step-refines_example = Step-refines (
    executed (at one_pair) (sent_by owner) (update_pair_config asset_infos new_fees) _ refl
      update_run)

deregister_run :
    execute (at one_pair) (sent_by owner) (deregister asset_infos)
    ≡ ok (done "deregister", awaiting)
unfolding execute execute_deregister check_both check load bytes_eq bytes_ltb ensure ◌>>=◌ lookup
    remove ok_or pair_key sort_infos as_bytes
deregister_run = refl

turned_checked : check_both (chain 0 0 0) (token_info, coin_info) ≡ ok tt
unfolding check_both check ◌>>=◌
turned_checked = refl

deregister_makes_room_example :
    ((result : Response × Storage)
      → execute (at one_pair) (sent_by owner) (create_pair (token_info, coin_info) none)
        ≢ ok result)
    × ((created : Response × Storage) × (execute
            (at awaiting)
            (sent_by owner)
            (create_pair (token_info, coin_info) none)
          ≡ ok created))
unfolding unwrap_or
deregister_makes_room_example =
    deregister_makes_room (at one_pair) (at awaiting) (sent_by owner) coin_info token_info none
      encode_payload deregister_run refl turned_checked (λ msg. refl) default_fees-IsValid

abbrev instantiate_msg : InstantiateMsg
instantiate_msg = record {
  token_code_id = 5;
  pair_code_id = 7;
  collector = collector;
  owner = owner;
  pairs_admin = owner;
}

instantiate_run :
    instantiate (at empty_storage) instantiate_msg
    ≡ ok (record { messages = []; submessage = none; attributes = [] }, empty_register)
unfolding instantiate ◌>>=◌
instantiate_run = refl

empty_register-Reachable : Reachable empty_register
empty_register-Reachable =
    after created (instantiated (at empty_storage) instantiate_msg _ refl instantiate_run)

awaiting-Reachable : Reachable awaiting
awaiting-Reachable =
    after empty_register-Reachable (
      executed (at empty_register) (sent_by owner) (create_pair asset_infos none) _ refl create_run)

pub one_pair-Reachable : Reachable one_pair
one_pair-Reachable = after awaiting-Reachable reply_step

abbrev fee_response : FeeInfoResponse
fee_response = record { collector = collector; fee_config = fees }

pub query_run : query_fee_config (at one_pair) asset_infos ≡ ok fee_response
unfolding query_fee_config load ◌>>=◌ fees_of lookup pair_key sort_infos as_bytes bytes_eq bytes_ltb
query_run = refl

query_fee_config-IsValid_example : IsValid fees
query_fee_config-IsValid_example =
    query_fee_config-IsValid (at one_pair) asset_infos one_pair-Reachable query_run

first_in_order : bytes_ltb (ascii "bc") (ascii "a") ≡ false
unfolding bytes_ltb
first_in_order = refl

second_in_order : bytes_ltb (ascii "c") (ascii "ab") ≡ false
unfolding bytes_ltb
second_in_order = refl

pair_key_collides_example :
    pair_key (native (ascii "a"), native (ascii "bc"))
    ≡ pair_key (native (ascii "ab"), native (ascii "c"))
pair_key_collides_example =
    pair_key_collides (ascii "a") (ascii "b") (ascii "c") first_in_order second_in_order
