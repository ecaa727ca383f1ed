-- ===== src/ParseReply/RoundTrip.antt =====
-- Parsing what was encoded gives it back.
use prismswap_contracts.Base.{
  ℕ, zero, suc, ◌+◌, ◌*◌, ◌/◌, ◌%◌, ◌^◌, ◌<◌, ◌≡◌, refl, sym, ◌∙◌, ap, true, false, inl, inr,
  Option, some, [], ◌∷◌, ◌++◌, ok, arith, Bytes, length, Bool-cases, ltb, ltb→lt, ltb→le, ◌>>=◌,
  ensure-true, bind-ok, take-append, drop-append, length-append, append_assoc, append-nil, none,
  le→ltb, not, ==_iff, ◌==◌,
}
use native.Mathlib.Numerals.{towards_suc}
use prismswap_contracts.ParseReply.{
  varint_loop, parse_protobuf_varint, parse_protobuf_length_prefixed, is_utf8,
  parse_protobuf_string, parse_protobuf_bytes, parse_instantiate_response_data,
  parse_reply_instantiate_data, succeeded,
}
use prismswap_contracts.ParseReply.Encode.{encode_varint, encode_field, encode_response}

pub shift_step : (i : ℕ) → 2 ^ (7 * (i + 1)) ≡ 128 * 2 ^ (7 * i)
shift_step i =
    let e : 7 * (i + 1) ≡ 7 * i + 7 = omega arith in rw e (simp towards_suc (omega arith))

pub pow_step : (k : ℕ) → 128 ^ (suc k) ≡ 128 * 128 ^ k
pow_step k = omega arith

encode_last : (k n : ℕ) → ltb n 128 ≡ true → encode_varint (suc k) n ≡ n ∷ []
unfolding encode_varint
encode_last k n h = rw (encode_varint, h)

encode_more :
    (k n : ℕ)
    → ltb n 128 ≡ false
    → encode_varint (suc k) n ≡ (n % 128 + 128) ∷ encode_varint k (n / 128)
unfolding encode_varint
encode_more k n h = rw (encode_varint, h)

module _ (field_number k i len b : ℕ) (rest : Bytes) (small : b < 128) where
  loop_last : varint_loop field_number (suc k) i len (b ∷ rest) ≡ ok (len + b * 2 ^ (7 * i), rest)
  unfolding varint_loop
  loop_last =
      let bit : (b / 128 % 2 == 0) ≡ true = (==_iff _ _).1 (omega arith) in
      let value : b % 128 ≡ b = omega arith in rw (varint_loop, bit, value)

  loop_more :
      varint_loop field_number (suc k) i len ((b + 128) ∷ rest)
      ≡ varint_loop field_number k (i + 1) (len + b * 2 ^ (7 * i)) rest
  unfolding varint_loop
  loop_more =
      let bit : ((b + 128) / 128 % 2 == 0) ≡ false = ground arith in
      let value : (b + 128) % 128 ≡ b = omega arith in rw (varint_loop, bit, value)

rounds_pos : (k n : ℕ) → n < 128 ^ suc k → ltb n 128 ≡ false → 0 < k
rounds_pos zero n h more = absurd (omega (arith, ltb→le _ _ more))
rounds_pos (suc k) n h more = omega arith

groups_sum :
    (i len n : ℕ)
    → len + n % 128 * 2 ^ (7 * i) + n / 128 * 2 ^ (7 * (i + 1)) ≡ len + n * 2 ^ (7 * i)
groups_sum i len n =
    let whole : n % 128 + 128 * (n / 128) ≡ n = omega arith in
    rw (shift_step i) (omega (arith, ap (λ (t : ℕ). t * 2 ^ (7 * i)) whole))

-- The loop reads what the encoding of a number in at most `k` groups wrote.
varint_loop-encode :
    (field_number k i len n : ℕ) (rest : Bytes)
    → n < 128 ^ k
    → 0 < k
    → varint_loop field_number k i len (encode_varint k n ++ rest)
      ≡ ok (len + n * 2 ^ (7 * i), rest)
varint_loop-encode field_number zero i len n rest h pos = absurd (omega arith)
varint_loop-encode field_number (suc k) i len n rest h pos = elim (Bool-cases (ltb n 128)) [
  | inl last ↦ rw (encode_last k n last) (loop_last field_number k i len n rest (ltb→lt _ _ last))
  | inr more ↦ rw (encode_more k n more) (
      loop_more field_number k i len (n % 128) (encode_varint k (n / 128) ++ rest) (omega arith)
      ∙ varint_loop-encode field_number k (i + 1) (len + n % 128 * 2 ^ (7 * i)) (n / 128) rest
          (omega (arith, pow_step k)) (rounds_pos k n h more)
      ∙ ap (λ t. ok (t, rest)) (groups_sum i len n))
]

parse_protobuf_varint-encode :
    (field_number n : ℕ) (rest : Bytes)
    → n < 2 ^ 32
    → parse_protobuf_varint (encode_varint 9 n ++ rest) field_number ≡ ok (n, rest)
unfolding parse_protobuf_varint ◌>>=◌
parse_protobuf_varint-encode field_number n rest h =
    rw (varint_loop-encode field_number 9 0 0 n rest (omega arith) (omega arith))
      (ap (λ t. ok (t, rest)) (omega arith))

-- A field that was encoded is read back, with what follows it.
parse_protobuf_length_prefixed-encode :
    (field_number : ℕ) (bytes rest : Bytes)
    → length bytes < 2 ^ 32
    → parse_protobuf_length_prefixed (encode_field field_number bytes ++ rest) field_number
      ≡ ok (bytes, rest)
unfolding encode_field parse_protobuf_length_prefixed
parse_protobuf_length_prefixed-encode field_number bytes rest h =
    rw (append_assoc (encode_varint 9 (length bytes)) bytes rest) (
      ensure-true _ _ ((==_iff ((field_number * 8 + 2) / 8) field_number).1 (omega arith))
      ∙ ensure-true _ _ ((==_iff ((field_number * 8 + 2) % 4) 2).1 (omega arith))
      ∙ bind-ok _ (parse_protobuf_varint-encode field_number (length bytes) (bytes ++ rest) h)
      ∙ ensure-true _ _ (ap not (le→ltb _ _ (omega (arith, length-append {0} bytes rest))))
      ∙ rw (take-append bytes rest, drop-append bytes rest))

parse_protobuf_string-encode :
    (field_number : ℕ) (bytes rest : Bytes)
    → length bytes < 2 ^ 32
    → is_utf8 bytes ≡ true
    → parse_protobuf_string (encode_field field_number bytes ++ rest) field_number
      ≡ ok (bytes, rest)
unfolding parse_protobuf_string
parse_protobuf_string-encode field_number bytes rest h valid =
    bind-ok _ (parse_protobuf_length_prefixed-encode field_number bytes rest h)
    ∙ ensure-true _ _ valid

parse_protobuf_bytes-nil : (field_number : ℕ) → parse_protobuf_bytes [] field_number ≡ ok (none, [])
unfolding parse_protobuf_bytes parse_protobuf_length_prefixed ◌>>=◌
parse_protobuf_bytes-nil field_number = refl

parse_protobuf_bytes-encode :
    (field_number b : ℕ) (bs : Bytes)
    → length (b ∷ bs) < 2 ^ 32
    → parse_protobuf_bytes (encode_field field_number (b ∷ bs)) field_number
      ≡ ok (some (b ∷ bs), [])
unfolding parse_protobuf_bytes
parse_protobuf_bytes-encode field_number b bs h = bind-ok _ (
    ap (λ t. parse_protobuf_length_prefixed t field_number)
      (sym (append-nil (encode_field field_number (b ∷ bs))))
    ∙ parse_protobuf_length_prefixed-encode field_number (b ∷ bs) [] h)

-- Absent data, for which nothing is sent, are no bytes.
abbrev pub sent_data : Bytes → Option Bytes
sent_data [] = none
sent_data (b ∷ bs) = some (b ∷ bs)

-- The answer to an instantiation is read back: its address, if that is UTF-8, and its data, which are
-- absent if they are empty. Both are shorter than 2^32 bytes.
pub parse-encode_response :
    (contract_address response : Bytes)
    → is_utf8 contract_address ≡ true
    → length contract_address < 2 ^ 32
    → length response < 2 ^ 32
    → parse_reply_instantiate_data (succeeded (some (encode_response contract_address response)))
      ≡ ok (record { contract_address = contract_address; data_field = sent_data response })
unfolding parse_reply_instantiate_data parse_instantiate_response_data encode_response
parse-encode_response contract_address [] valid h k =
    bind-ok _ (
      ap (λ t. parse_protobuf_string t 1) (sym (append-nil (encode_field 1 contract_address)))
      ∙ parse_protobuf_string-encode 1 contract_address [] h valid)
    ∙ bind-ok _ (parse_protobuf_bytes-nil 2)
parse-encode_response contract_address (b ∷ bs) valid h k =
    bind-ok _ (parse_protobuf_string-encode 1 contract_address (encode_field 2 (b ∷ bs)) h valid)
    ∙ bind-ok _ (parse_protobuf_bytes-encode 2 b bs k)
