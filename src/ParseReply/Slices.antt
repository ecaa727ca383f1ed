-- ===== src/ParseReply/Slices.antt =====
-- What is read of a response, whatever it is made of.
use prismswap_contracts.Base.{
  ℕ, zero, suc, ◌+◌, ◌*◌, ◌/◌, ◌%◌, ◌^◌, ◌<◌, ◌≤◌, mul-le-mul_left, mul-le-mul_right, ◌≡◌, sym, ◌∙◌,
  ap, true, inl, inr, Option, none, some, [], ◌∷◌, ◌++◌, ok, arith, Bytes, length, Bool-cases, ◌==◌,
  >>=-elim, ensure-elim, ok-injective, unwrap_or, take-drop,
}
use prismswap_contracts.ParseReply.{
  ParseResult, varint_loop, parse_protobuf_varint, parse_protobuf_length_prefixed, is_utf8,
  parse_protobuf_string, parse_protobuf_bytes, parse_instantiate_response_data,
  parse_reply_instantiate_data, succeeded, varint_max_bytes, MsgInstantiateContractResponse,
}
use prismswap_contracts.ParseReply.RoundTrip.{shift_step, pow_step}

-- A number that was read from the front of the bytes, in at most `k` of them, below the limit.
pub record VarintRead (k limit : ℕ) (bytes : Bytes) (value : ℕ) (rest : Bytes) : Type 0 where
  pub head : Bytes
  pub split : bytes ≡ head ++ rest
  pub head_pos : 0 < length head
  pub head_le : length head ≤ k
  pub value_lt : value < limit

pow_pos : (k : ℕ) → 0 < 128 ^ k
pow_pos zero = omega arith
pow_pos (suc k) = omega (arith, pow_step k, pow_pos k)

digit_lt : (i len b : ℕ) → len < 2 ^ (7 * i) → len + b % 128 * 2 ^ (7 * i) < 2 ^ (7 * (i + 1))
digit_lt i len b h =
    let digit : b % 128 ≤ 127 = omega arith in
    omega (arith, h, shift_step i, mul-le-mul_right {m = b % 128} {n = 127} (2 ^ (7 * i)) digit)

bound_more : (i k v : ℕ) → v < 128 * 2 ^ (7 * i) * 128 ^ k → v < 2 ^ (7 * i) * 128 ^ suc k
bound_more i k v h = rw (pow_step k) (omega (arith, h))

bound_last : (i k v : ℕ) → v < 128 * 2 ^ (7 * i) → v < 2 ^ (7 * i) * 128 ^ suc k
bound_last i k v h =
    bound_more i k v (omega (arith, h, mul-le-mul_left (128 * 2 ^ (7 * i)) (pow_pos k)))

varint_loop-VarintRead :
    (field_number k i len : ℕ) (bytes : Bytes) {value : ℕ} {rest : Bytes}
    → len < 2 ^ (7 * i)
    → varint_loop field_number k i len bytes ≡ ok (value, rest)
    → VarintRead k (2 ^ (7 * i) * 128 ^ k) bytes value rest
unfolding varint_loop
varint_loop-VarintRead field_number zero i len bytes small h = absurd (cc)
varint_loop-VarintRead field_number (suc k) i len [] small h = absurd (cc)
varint_loop-VarintRead field_number (suc k) i len (b ∷ bytes) {value} {rest} small h =
    let next = digit_lt i len b small in
    elim (Bool-cases (b / 128 % 2 == 0)) [
      | inl last ↦
          let p = ok-injective (rw (varint_loop, last) at h) in
          record {
            head = b ∷ [];
            split = ap (λ t. b ∷ t.1) p;
            head_pos = omega arith;
            head_le = omega arith;
            value_lt = bound_last i k value (rw (shift_step i, ap (λ t. t.0) p) at next);
          }
      | inr more ↦
          let r =
            varint_loop-VarintRead field_number k (i + 1) (len + b % 128 * 2 ^ (7 * i)) bytes next
              (rw (varint_loop, more) at h) in
          record {
            head = b ∷ r.head;
            split = ap (λ t. b ∷ t) r.split;
            head_pos = omega arith;
            head_le = omega (arith, r.head_le);
            value_lt = bound_more i k value (rw (shift_step i) at r.value_lt);
          }
    ]

-- The number that the loop reads off the front of the bytes takes between one and nine of them, and is
-- below 2^63, so that no shift or sum of the loop leaves a u64.
pub varint_loop_fits :
    (field_number : ℕ) (bytes : Bytes) {value : ℕ} {rest : Bytes}
    → varint_loop field_number varint_max_bytes 0 0 bytes ≡ ok (value, rest)
    → VarintRead 9 (2 ^ 63) bytes value rest
varint_loop_fits field_number bytes h =
    let r = varint_loop-VarintRead field_number 9 0 0 bytes (omega arith) h in
    record {
      head = r.head;
      split = r.split;
      head_pos = r.head_pos;
      head_le = r.head_le;
      value_lt = omega (arith, r.value_lt);
    }

-- A field that was read: at most ten bytes before it are not part of it.
pub record FieldRead (bytes field rest : Bytes) : Type 0 where
  pub header : Bytes
  pub split : bytes ≡ header ++ (field ++ rest)
  pub header_le : length header ≤ 10

prefixed-FieldRead :
    (bytes : Bytes) (field_number : ℕ) {field rest : Bytes}
    → parse_protobuf_length_prefixed bytes field_number ≡ ok (field, rest)
    → FieldRead bytes field rest
unfolding parse_protobuf_length_prefixed parse_protobuf_varint
prefixed-FieldRead [] field_number {field} {rest} h =
    let p = ok-injective h in
    record { header = []; split = ap (λ t. t.0 ++ t.1) p; header_le = omega arith }
prefixed-FieldRead (tag ∷ bytes) field_number {field} {rest} h = ensure-elim _ _ _ h λ same h.
    ensure-elim _ _ _ h λ delimited h. >>=-elim _ _ h λ prefix e h. >>=-elim _ _ e λ parsed e1 e2.
      ensure-elim _ _ _ h λ enough h.
        let r = varint_loop_fits field_number bytes e1 in
        let left : parsed.1 ≡ field ++ rest =
          ap (λ t. t.1) (ok-injective e2)
          ∙ sym (take-drop prefix.0 prefix.1)
          ∙ ap (λ t. t.0 ++ t.1) (ok-injective h) in
        record {
          header = tag ∷ r.head;
          split = ap (λ t. tag ∷ t) (r.split ∙ ap (λ t. r.head ++ t) left);
          header_le = omega (arith, r.head_le);
        }

-- The address and the data of an answer, where it stands in the bytes.
pub record AnswerRead (bytes : Bytes) (res : MsgInstantiateContractResponse) : Type 0 where
  pub before_address : Bytes
  pub before_data : Bytes
  pub rest : Bytes
  pub split :
      bytes
      ≡ before_address
        ++ (res.contract_address ++ (before_data ++ (unwrap_or res.data_field [] ++ rest)))
  pub before_address_le : length before_address ≤ 10
  pub before_data_le : length before_data ≤ 10
  pub address_valid : is_utf8 res.contract_address ≡ true

data_of :
    (field rest : Bytes) {data_field : Option Bytes} {left : Bytes}
    → ◌≡◌ {A = ParseResult (Option Bytes × Bytes)}
        (ok (elim (field) [ [] ↦ (none, rest) | b ∷ bs ↦ (some (b ∷ bs), rest) ]))
        (ok (data_field, left))
    → field ≡ unwrap_or data_field []
unfolding unwrap_or
data_of [] rest h = ap (λ (t : Option Bytes × Bytes). unwrap_or t.0 []) (ok-injective h)
data_of (b ∷ bs) rest h = ap (λ (t : Option Bytes × Bytes). unwrap_or t.0 []) (ok-injective h)

join :
    {bytes first address left second data_field : Bytes} (header next rest : Bytes)
    → bytes ≡ header ++ (first ++ left)
    → first ≡ address
    → left ≡ next ++ (second ++ rest)
    → second ≡ data_field
    → bytes ≡ header ++ (address ++ (next ++ (data_field ++ rest)))
join header next rest a b c d = cc

-- Whatever bytes answer an instantiation, what is read of them is in them: the address, which is UTF-8,
-- and after it the data are two pieces of the bytes, with at most ten bytes before each.
pub parse_reply-AnswerRead :
    (bytes : Bytes) {res : MsgInstantiateContractResponse}
    → parse_reply_instantiate_data (succeeded (some bytes)) ≡ ok res
    → AnswerRead bytes res
unfolding parse_reply_instantiate_data parse_instantiate_response_data parse_protobuf_string
    parse_protobuf_bytes
parse_reply-AnswerRead bytes {res} h = >>=-elim _ _ h λ address e h. >>=-elim _ _ e λ field e1 e.
    ensure-elim _ _ _ e λ valid e. >>=-elim _ _ h λ response e2 h. >>=-elim _ _ e2 λ second e3 e2.
      let a = prefixed-FieldRead bytes 1 e1 in
      let d = prefixed-FieldRead address.1 2 e3 in
      let address-eq : address.0 ≡ res.contract_address =
        ap (λ (r : MsgInstantiateContractResponse). r.contract_address) (ok-injective h) in
      let data-eq : response.0 ≡ res.data_field =
        ap (λ (r : MsgInstantiateContractResponse). r.data_field) (ok-injective h) in
      let same = ok-injective e in
      record {
        before_address = a.header;
        before_data = d.header;
        rest = second.1;
        split =
            join a.header d.header second.1 a.split (ap (λ t. t.0) same ∙ address-eq)
              (ap (λ t. t.1) same ∙ d.split)
              (data_of second.0 second.1 e2 ∙ ap (λ t. unwrap_or t []) data-eq);
        before_address_le = a.header_le;
        before_data_le = d.header_le;
        address_valid = rw (← address-eq, ← same) valid;
      }
