-- ===== src/Tests/Founded.antt =====
-- A pair that is founded, on a small chain.
use prismswap_contracts.Base.{
  ◌≡◌, ◌≢◌, refl, ap, suc, none, [], ◌∷◌, ok, arith, Bytes, ascii, length, map, ◌>>=◌,
}
use prismswap_contracts.Numbers.Reference.{reference}
use prismswap_contracts.Querier.{check}
use prismswap_contracts.Token.Valid.{IsAscii}
use prismswap_contracts.System.Creation.{create_pair-founds, IsFounded}
use prismswap_contracts.Tests.Register.{factory_config, empty_register, at, describe}
use prismswap_contracts.Tests.Creates.{can_create, address-is_utf8}
use prismswap_contracts.Tests.Answer.{share-is_utf8}
use prismswap_contracts.Tests.Share.{
  name_run, coin-HasAsciiSymbol, token-HasAsciiSymbol, same_version, no_accounts,
}
use prismswap_contracts.Tests.{
  upper, owner, pair_address, share_token, coin_info, token_info, asset_infos, chain, sent_by,
  encode_payload,
}

coin_checked : check (chain 0 0 0) coin_info ≡ ok tt
unfolding check
coin_checked = refl

token_checked : check (chain 0 0 0) token_info ≡ ok tt
unfolding check ◌>>=◌
token_checked = refl

two_assets : coin_info ≢ token_info
two_assets e = absurd (cc)

same_length : (text : Bytes) → IsAscii text → length (map upper text) ≡ length text
same_length [] a = refl
same_length (b ∷ bs) (lt, a) = ap suc (same_length bs a)

create_pair-founds_example :
    IsFounded
      (at empty_register)
      factory_config
      refl
      (sent_by owner)
      asset_infos
      none
      encode_payload
      reference
      pair_address
      share_token
      (ascii "UUSD-TOKEN-LP")
      same_version
      no_accounts
      0
      0
      refl
      refl
      describe
create_pair-founds_example =
    create_pair-founds (at empty_register) factory_config refl (sent_by owner) asset_infos none
      encode_payload reference pair_address share_token (ascii "UUSD-TOKEN-LP") same_version
      no_accounts 0 0 refl refl describe can_create two_assets coin_checked token_checked name_run
      coin-HasAsciiSymbol token-HasAsciiSymbol same_length (λ msg. refl)
      (address-is_utf8, omega arith, refl) (share-is_utf8, omega arith, refl)
