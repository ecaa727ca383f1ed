-- ===== src/Tests/Creates.antt =====
-- Pairs that the factory creates, on a small chain.
use prismswap_contracts.Base.{◌≡◌, ◌↔◌, refl, true, none, [], ok, ◌>>=◌, unwrap_or}
use prismswap_contracts.Messages.{Response}
use prismswap_contracts.Querier.{check}
use prismswap_contracts.ParseReply.{is_utf8, utf8_from, utf8_lead}
use prismswap_contracts.Factory.Fees.{default_fees-IsValid}
use prismswap_contracts.Factory.Pairs.{lookup, pair_key}
use prismswap_contracts.Factory.State.{Storage}
use prismswap_contracts.Factory.Execute.{create_pair, execute, check_both}
use prismswap_contracts.Factory.Execute.Creates.{CanCreate, create_pair_iff}
use prismswap_contracts.Tests.Register.{factory_config, empty_register, at}
use prismswap_contracts.Tests.{owner, pair_address, asset_infos, chain, sent_by, encode_payload}

both_checked : check_both (chain 0 0 0) asset_infos ≡ ok tt
unfolding check_both check ◌>>=◌
both_checked = refl

create_pair_iff_example :
    ((created : Response × Storage) × (execute
          (at empty_register)
          (sent_by owner)
          (create_pair asset_infos none)
        ≡ ok created))
    ↔ CanCreate (at empty_register) factory_config refl (sent_by owner) asset_infos none
create_pair_iff_example =
    create_pair_iff (at empty_register) factory_config refl (sent_by owner) asset_infos none
      encode_payload both_checked (λ msg. refl)

none_registered : lookup (pair_key asset_infos) [] ≡ none
unfolding lookup
none_registered = refl

pub can_create : CanCreate (at empty_register) factory_config refl (sent_by owner) asset_infos none
unfolding unwrap_or
can_create = (refl, default_fees-IsValid, none_registered)

pub address-is_utf8 : is_utf8 pair_address ≡ true
unfolding is_utf8 utf8_from utf8_lead
address-is_utf8 = refl
