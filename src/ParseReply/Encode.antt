-- ===== src/ParseReply/Encode.antt =====
-- What the chain sends: the protobuf encoding of the answer to an instantiation, as its
-- specification has it (https://developers.google.com/protocol-buffers/docs/encoding).
use prismswap_contracts.Base.{
  ℕ, zero, suc, ◌+◌, ◌*◌, ◌/◌, ◌%◌, true, false, [], ◌∷◌, ◌++◌, Bytes, length, ltb,
}

-- A number in groups of seven bits, the lowest first, with bit 7 set on all but the last.
unfoldable pub encode_varint : (most : ℕ) → ℕ → Bytes
encode_varint zero n = []
encode_varint (suc most) n = elim (ltb n 128) [
  | true ↦ n ∷ []
  | false ↦ (n % 128 + 128) ∷ encode_varint most (n / 128)
]

-- A tag, the length, and the bytes.
unfoldable pub encode_field : (field_number : ℕ) → Bytes → Bytes
encode_field field_number bytes = (field_number * 8 + 2) ∷ (encode_varint 9 (length bytes) ++ bytes)

-- The address, and the data unless it is empty.
unfoldable pub encode_response : Bytes → Bytes → Bytes
encode_response contract_address [] = encode_field 1 contract_address
encode_response contract_address (b ∷ bs) =
    encode_field 1 contract_address ++ encode_field 2 (b ∷ bs)
