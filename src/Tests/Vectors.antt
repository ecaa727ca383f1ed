-- ===== src/Tests/Vectors.antt =====
-- The numbers that contracts/prismswap_pair/src/testing.rs tests the code with.
use prismswap_contracts.Base.{
  ◌*◌, ◌^◌, ◌≡◌, refl, none, some, [], ◌∷◌, ok, err, ascii, ◌>>=◌, must, ensure,
}
use prismswap_contracts.Numbers.{one}
use prismswap_contracts.Numbers.Reference.{reference}
use prismswap_contracts.ParseReply.{
  succeeded, parse_reply_instantiate_data, parse_instantiate_response_data, parse_protobuf_string,
  parse_protobuf_bytes, parse_protobuf_length_prefixed, parse_protobuf_varint, varint_loop, is_utf8,
  utf8_from, utf8_lead,
}
use prismswap_contracts.Pair.Error.{max_spread_assertion}
use prismswap_contracts.Pair.Swap.{compute_swap, assert_max_spread}

-- `try_native_to_token`: 1,500,000,000 coins into a pool of 30,000,000,000 against 20,000,000,000.
native_to_token :
    compute_swap reference 30_000_000_000 20_000_000_000 1_500_000_000 (3 * 10 ^ 15)
    ≡ ok (949_523_810, 47_619_047, 2_857_142)
unfolding compute_swap must ◌>>=◌
native_to_token = refl

-- `test_max_spread`, at a belief price of 1200 and without one, each on both sides of 1%.
module _ where
  above_belief :
      assert_max_spread reference (some (1200 * one)) (some (10 ^ 16)) 1_200_000_000 989_999 0
      ≡ err max_spread_assertion
  unfolding assert_max_spread must ensure ◌>>=◌
  above_belief = refl

  at_belief :
      assert_max_spread reference (some (1200 * one)) (some (10 ^ 16)) 1_200_000_000 990_000 0
      ≡ ok tt
  unfolding assert_max_spread must ensure ◌>>=◌
  at_belief = refl

  above_spread :
      assert_max_spread reference none (some (10 ^ 16)) 0 989_999 10_001 ≡ err max_spread_assertion
  unfolding assert_max_spread must ensure ◌>>=◌
  above_spread = refl

  at_spread : assert_max_spread reference none (some (10 ^ 16)) 0 990_000 10_000 ≡ ok tt
  unfolding assert_max_spread must ensure ◌>>=◌
  at_spread = refl

-- The reply that the tests of the pair send it.
liquidity_reply :
    parse_reply_instantiate_data (
      succeeded (
        some
          (10 ∷ 13 ∷ 108 ∷ 105 ∷ 113 ∷ 117 ∷ 105 ∷ 100 ∷ 105 ∷ 116 ∷ 121 ∷ 48 ∷ 48 ∷ 48 ∷ 48 ∷ [])))
    ≡ ok (record { contract_address = ascii "liquidity0000"; data_field = none })
unfolding parse_reply_instantiate_data parse_instantiate_response_data parse_protobuf_string
    parse_protobuf_bytes parse_protobuf_length_prefixed parse_protobuf_varint varint_loop is_utf8
    utf8_from utf8_lead ensure ◌>>=◌
liquidity_reply = refl
