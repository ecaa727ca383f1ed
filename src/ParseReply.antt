-- ===== src/ParseReply.antt =====
-- contracts/prismswap_pair/src/parse_reply.rs, of which contracts/prismswap_factory/src/parse_reply.rs
-- is a copy: the protobuf message that answers an instantiation. Bytes are numbers below 256. The
-- contracts run on wasm32, so `usize` has 32 bits. An error message is kept as its parts.
pub mod Encode
pub mod RoundTrip
pub mod Slices
use prismswap_contracts.Base.{
  ℕ, zero, suc, ◌+◌, ◌*◌, ◌/◌, ◌%◌, ◌^◌, Bool, true, false, ◌&&◌, Option, none, some, List, [], ◌∷◌,
  Outcome, ok, err, ◌>>=◌, ◌>>◌, ensure, Bytes, length, take, drop, ltb, leb, ◌==◌, not,
  if◌then◌else◌,
}

-- What is wrong, and in which field.
pub data ParseFailure : Type 0 where
  missing_reply_data : ParseFailure
  varint_too_short varint_too_long message_too_short : (field_number : ℕ) → ParseFailure
  invalid_field : (field field_number : ℕ) → ParseFailure
  invalid_wire_type : (field_number wire_type : ℕ) → ParseFailure

pub data ParseReplyError : Type 0 where
  sub_msg_failure : Bytes → ParseReplyError
  parse_failure : ParseFailure → ParseReplyError
  broken_utf8 : ParseReplyError

abbrev pub ParseResult : Type 0 → Type 0
ParseResult A = Outcome ParseReplyError A

pub record MsgInstantiateContractResponse : Type 0 where
  pub contract_address : Bytes
  pub data_field : Option Bytes

-- `Reply::result`: the error of the submessage, or the data of its response.
pub data ReplyResult : Type 0 where
  failed : Bytes → ReplyResult
  succeeded : (response : Option Bytes) → ReplyResult

abbrev pub wire_type_length_delimited : ℕ
wire_type_length_delimited = 2

abbrev pub varint_max_bytes : ℕ
varint_max_bytes = 9

abbrev pub usize_mod : ℕ
usize_mod = 2 ^ 32

-- The loop over the bytes of a varint: `rounds` is what is left of the nine, `i` the index of the
-- next byte, and the list what begins there. `b & 0x7f` is `b % 128`, and `b & 0x80` bit 7.
unfoldable pub varint_loop : (field_number rounds i len : ℕ) → Bytes → ParseResult (ℕ × Bytes)
varint_loop field_number zero i len rest = err (parse_failure (varint_too_long field_number))
varint_loop field_number (suc rounds) i len [] = err (parse_failure (varint_too_short field_number))
varint_loop field_number (suc rounds) i len (b ∷ rest) =
    let len' = len + b % 128 * 2 ^ (7 * i) in
    elim (b / 128 % 2 == 0) [
      | true ↦ ok (len', rest)
      | false ↦ varint_loop field_number rounds (i + 1) len' rest
    ]

unfoldable pub parse_protobuf_varint : Bytes → ℕ → ParseResult (ℕ × Bytes)
parse_protobuf_varint bytes field_number = do
  parsed ← varint_loop field_number varint_max_bytes 0 0 bytes
  ok (parsed.0 % usize_mod, parsed.1)

-- The field's bytes, and what is left.
unfoldable pub parse_protobuf_length_prefixed : Bytes → ℕ → ParseResult (Bytes × Bytes)
parse_protobuf_length_prefixed [] field_number = ok ([], [])
parse_protobuf_length_prefixed (tag ∷ rest_1) field_number = do
  let wire_type = tag % 4
  let field = tag / 8
  ensure (field == field_number) (parse_failure (invalid_field field field_number))
  ensure (wire_type == wire_type_length_delimited)
      (parse_failure (invalid_wire_type field_number wire_type))
  prefix ← parse_protobuf_varint rest_1 field_number
  ensure (not (ltb (length prefix.1) prefix.0)) (parse_failure (message_too_short field_number))
  ok (take prefix.0 prefix.1, drop prefix.0 prefix.1)

-- What may follow the first byte of a character: how many bytes, and the range of the next.
unfoldable pub utf8_lead : ℕ → Option (ℕ × ℕ × ℕ)
utf8_lead b =
    if ltb b 0x80
    then some (0, 0x80, 0xbf)
    else if ltb b 0xc2
    then none
    else if ltb b 0xe0
    then some (1, 0x80, 0xbf)
    else if b == 0xe0
    then some (2, 0xa0, 0xbf)
    else if b == 0xed
    then some (2, 0x80, 0x9f)
    else if ltb b 0xf0
    then some (2, 0x80, 0xbf)
    else if b == 0xf0
    then some (3, 0x90, 0xbf)
    else if ltb b 0xf4
    then some (3, 0x80, 0xbf)
    else if b == 0xf4
    then some (3, 0x80, 0x8f)
    else none

-- Whether `String::from_utf8` takes the bytes, in the midst of a character that wants `more` bytes,
-- the next between `lo` and `hi`.
unfoldable pub utf8_from : (more lo hi : ℕ) → Bytes → Bool
utf8_from zero lo hi [] = true
utf8_from (suc more) lo hi [] = false
utf8_from zero lo hi (b ∷ bs) = elim (utf8_lead b) [
  | some (more, low, high) ↦ utf8_from more low high bs
  | none ↦ false
]
utf8_from (suc more) lo hi (b ∷ bs) = (leb lo b && leb b hi) && utf8_from more 0x80 0xbf bs

unfoldable pub is_utf8 : Bytes → Bool
is_utf8 bytes = utf8_from 0 0 0 bytes

unfoldable pub parse_protobuf_string : Bytes → ℕ → ParseResult (Bytes × Bytes)
parse_protobuf_string bytes field_number = do
  parsed ← parse_protobuf_length_prefixed bytes field_number
  ensure (is_utf8 parsed.0) broken_utf8
  ok parsed

unfoldable pub parse_protobuf_bytes : Bytes → ℕ → ParseResult (Option Bytes × Bytes)
parse_protobuf_bytes bytes field_number = do
  parsed ← parse_protobuf_length_prefixed bytes field_number
  ok (elim (parsed.0) [ [] ↦ (none, parsed.1) | b ∷ bs ↦ (some (b ∷ bs), parsed.1) ])

unfoldable pub parse_instantiate_response_data : Bytes → ParseResult MsgInstantiateContractResponse
parse_instantiate_response_data bytes = do
  contract_addr ← parse_protobuf_string bytes 1
  response ← parse_protobuf_bytes contract_addr.1 2
  ok (record { contract_address = contract_addr.0; data_field = response.0 })

unfoldable pub parse_reply_instantiate_data :
    ReplyResult → ParseResult MsgInstantiateContractResponse
parse_reply_instantiate_data (failed error) = err (sub_msg_failure error)
parse_reply_instantiate_data (succeeded none) = err (parse_failure missing_reply_data)
parse_reply_instantiate_data (succeeded (some response)) = parse_instantiate_response_data response
