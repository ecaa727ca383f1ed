-- ===== src/Tests/Answer.antt =====
-- The answer to an instantiation, and the pair that waits for it.
use prismswap_contracts.Base.{
  ◌≡◌, true, refl, none, some, [], ◌∷◌, ◌++◌, ◌^◌, ok, arith, Bytes, ascii, bytes_eq, ◌>>=◌, ensure,
  map_err,
}
use prismswap_contracts.Numbers.Reference.{reference}
use prismswap_contracts.Asset.{asset_eq}
use prismswap_contracts.Messages.{PairInstantiateMsg, wasm_instantiate, addr, receive, Response}
use prismswap_contracts.Querier.{query_token_symbol, check}
use prismswap_contracts.ParseReply.{
  ReplyResult, succeeded, parse_reply_instantiate_data, parse_instantiate_response_data,
  parse_protobuf_string, parse_protobuf_bytes, parse_protobuf_length_prefixed,
  parse_protobuf_varint, varint_loop, varint_max_bytes, is_utf8, utf8_from, utf8_lead,
}
use prismswap_contracts.ParseReply.Encode.{encode_response}
use prismswap_contracts.ParseReply.RoundTrip.{sent_data, parse-encode_response}
use prismswap_contracts.ParseReply.Slices.{
  VarintRead, varint_loop_fits, AnswerRead, parse_reply-AnswerRead,
}
use prismswap_contracts.Pair.State.{Config, Storage, Deps, load}
use prismswap_contracts.Pair.Contract.{
  take_chars, short_symbol, format_lp_token_name, instantiate, reply,
}
use prismswap_contracts.Pair.Contract.Calls.{
  Calls, uncalled, then, instantiated, executed, replied, IsPair, config_is_fixed,
}
use prismswap_contracts.Tests.Liquidity.{withdraw_msg, receive_run}
use prismswap_contracts.Tests.{
  pair_address, factory_address, share_token, asset_infos, config, chain, pair_deps, sent_by,
}

pub share-is_utf8 : is_utf8 share_token ≡ true
unfolding is_utf8 utf8_from utf8_lead
share-is_utf8 = refl

parse-encode_response_example :
    parse_reply_instantiate_data (succeeded (some (encode_response share_token (7 ∷ []))))
    ≡ ok (record { contract_address = share_token; data_field = sent_data (7 ∷ []) })
parse-encode_response_example =
    parse-encode_response share_token (7 ∷ []) share-is_utf8 (omega arith) (omega arith)

-- Five bytes of an address, and one of data.
abbrev response_bytes : Bytes
response_bytes = 10 ∷ 5 ∷ (share_token ++ 18 ∷ 1 ∷ 7 ∷ [])

response_run :
    parse_reply_instantiate_data (succeeded (some response_bytes))
    ≡ ok (record { contract_address = share_token; data_field = some (7 ∷ []) })
unfolding parse_reply_instantiate_data parse_instantiate_response_data parse_protobuf_string
    parse_protobuf_bytes parse_protobuf_length_prefixed parse_protobuf_varint varint_loop is_utf8
    utf8_from utf8_lead ensure ◌>>=◌
response_run = refl

parse_reply-AnswerRead_example :
    AnswerRead response_bytes
      (record { contract_address = share_token; data_field = some (7 ∷ []) })
parse_reply-AnswerRead_example = parse_reply-AnswerRead response_bytes response_run

-- 300 in two bytes.
varint_run : varint_loop 1 varint_max_bytes 0 0 (172 ∷ 2 ∷ 9 ∷ []) ≡ ok (300, 9 ∷ [])
unfolding varint_loop
varint_run = refl

varint_loop_fits_example : VarintRead 9 (2 ^ 63) (172 ∷ 2 ∷ 9 ∷ []) 300 (9 ∷ [])
varint_loop_fits_example = varint_loop_fits 1 (172 ∷ 2 ∷ 9 ∷ []) varint_run

abbrev msg : PairInstantiateMsg
msg = record { asset_infos = asset_infos; token_code_id = 5; factory = factory_address }

abbrev fresh : Deps
fresh = record { arith = reference; chain = chain 0 0 0; contract = pair_address; storage = none }

-- What is stored until the reply comes.
abbrev waiting : Config
waiting = record {
  pair_info = record {
    asset_infos = asset_infos;
    contract_addr = pair_address;
    liquidity_token = [];
  };
  factory = factory_address;
}

abbrev instantiate_response : Response
instantiate_response = record {
  messages = [];
  submessage = some (1, wasm_instantiate 5 (ascii "i") [] none "");
  attributes = [];
}

instantiate_run : instantiate fresh msg ≡ ok (instantiate_response, some waiting)
unfolding instantiate check map_err ◌>>=◌ asset_eq ensure format_lp_token_name short_symbol
    query_token_symbol take_chars
instantiate_run = refl

abbrev waiting_deps : Deps
waiting_deps = record {
  arith = reference;
  chain = chain 0 0 0;
  contract = pair_address;
  storage = some waiting;
}

-- Field 1 with five bytes.
abbrev answer : ReplyResult
answer = succeeded (some (10 ∷ 5 ∷ share_token))

abbrev reply_response : Response
reply_response = record {
  messages = [];
  submessage = none;
  attributes = ("liquidity_token_addr", addr share_token) ∷ [];
}

reply_run : reply waiting_deps answer ≡ ok (reply_response, some config)
unfolding reply load bytes_eq map_err ◌>>=◌ parse_reply_instantiate_data
    parse_instantiate_response_data parse_protobuf_string parse_protobuf_bytes
    parse_protobuf_length_prefixed parse_protobuf_varint varint_loop is_utf8 utf8_from utf8_lead
    ensure
reply_run = refl

pair_made : Calls pair_address none (some config)
pair_made =
    then (then uncalled (instantiated fresh msg _ refl refl instantiate_run))
      (replied waiting_deps answer _ refl refl reply_run)

-- A withdrawal.
pair_called : Calls pair_address (some config) (some config)
pair_called = then uncalled (
    executed (pair_deps 1100 2200 110) (sent_by share_token) (receive withdraw_msg) _ refl refl
      receive_run)

config_is_fixed_example :
    IsPair pair_address config × (◌≡◌ {A = Storage} (some config) (some config))
config_is_fixed_example = config_is_fixed pair_address config pair_made (λ e. cc) pair_called
