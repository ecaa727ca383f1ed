-- ===== src/Tests/Share.antt =====
-- The share token of a pair, as the token contract takes it.
use prismswap_contracts.Base.{
  ℕ, ◌≡◌, refl, none, some, List, [], ok, arith, ascii, ◌>>=◌, ensure, map_err, ok-injective, subst,
}
use prismswap_contracts.Asset.{StdResult}
use prismswap_contracts.Messages.{Cw20Coin, TokenInstantiateMsg}
use prismswap_contracts.Querier.{query_token_symbol}
use prismswap_contracts.Pair.Contract.{take_chars, short_symbol, format_lp_token_name}
use prismswap_contracts.Token.{
  is_valid_name, is_valid_symbol, all_symbol_bytes, is_symbol_byte, validate, cap_of, get_cap,
  TokenData, check_cap, minter_data, instantiate,
}
use prismswap_contracts.Token.Valid.{IsAscii, HasAsciiSymbol}
use prismswap_contracts.Token.Stored.{IsToken, instantiate-IsToken}
use prismswap_contracts.Tests.{pair_address, coin_info, token_info, asset_infos, chain}

pub name_run : format_lp_token_name (chain 0 0 0) asset_infos ≡ ok (ascii "UUSD-TOKEN-LP")
unfolding format_lp_token_name short_symbol query_token_symbol take_chars map_err ◌>>=◌
name_run = refl

abbrev share_msg : TokenInstantiateMsg
share_msg = record {
  name = ascii "UUSD-TOKEN-LP";
  symbol = ascii "uLP";
  decimals = 6;
  initial_balances = [];
  mint = some (record { minter = pair_address; cap = none });
}

pub coin-HasAsciiSymbol : HasAsciiSymbol (chain 0 0 0) coin_info
coin-HasAsciiSymbol = (omega arith, (omega arith, (omega arith, (omega arith, tt))))

pub token-HasAsciiSymbol : HasAsciiSymbol (chain 0 0 0) token_info
unfolding query_token_symbol ◌>>=◌
token-HasAsciiSymbol symbol h =
    let e : ascii "TOKEN" ≡ symbol = ok-injective h in
    subst IsAscii e (omega arith, (omega arith, (omega arith, (omega arith, (omega arith, tt)))))

-- The storage is the number of accounts.
abbrev pub same_version : ℕ → StdResult ℕ
same_version n = ok n

abbrev pub no_accounts : ℕ → List Cw20Coin → StdResult (ℕ × ℕ)
no_accounts n balances = ok (n, 0)

abbrev stored : TokenData
stored = record {
  name = ascii "UUSD-TOKEN-LP";
  symbol = ascii "uLP";
  decimals = 6;
  total_supply = 0;
  mint = some (record { minter = pair_address; cap = none });
}

token_run : instantiate same_version no_accounts (λ a. ok a) 0 share_msg ≡ ok (0, stored)
unfolding instantiate validate is_valid_name is_valid_symbol all_symbol_bytes is_symbol_byte ensure
    check_cap get_cap cap_of minter_data ◌>>=◌
token_run = refl

instantiate-IsToken_example : IsToken (get_cap share_msg) stored
instantiate-IsToken_example =
    instantiate-IsToken same_version no_accounts (λ a. ok a) 0 share_msg token_run
