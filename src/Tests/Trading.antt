-- ===== src/Tests/Trading.antt =====
-- A pair on small ledgers: one coin, one token and the shares.
use prismswap_contracts.Base.{
  ℕ, ◌+◌, ◌-◌, ◌≤◌, ◌≡◌, refl, sym, ap, arith, Option, none, some, [], ◌∷◌, ok, Bytes, ascii,
  bytes_eq, bytes_eq_iff, leb, ◌&&◌, if◌then◌else◌, ok-injective, subst, ◌>>=◌, ◌==◌,
}
use prismswap_contracts.Numbers.{one}
use prismswap_contracts.Numbers.Reference.{reference, reference-IsDocumented}
use prismswap_contracts.Asset.{Addr, StdResult, AssetInfo, cw20, native, asset_eq}
use prismswap_contracts.Messages.{FeeInfoResponse, CosmosMsg, wasm_execute, bank_send}
use prismswap_contracts.Chain.{Chain}
use prismswap_contracts.Querier.{
  query_pool, query_balance, query_token_balance, query_supply, query_fee_info,
}
use prismswap_contracts.Pair.State.{Deps}
use prismswap_contracts.Market.Ledger.{Market, owed, IsMarket}
use prismswap_contracts.Tests.{share_token, config, send_asset, token_info, pair_address, chain}

-- The balances of the pair, and the supply of its shares.
pub record Books : Type 0 where
  pub coins : ℕ
  pub tokens : ℕ
  pub shares : ℕ

abbrev pub held : Books → AssetInfo → ℕ
held w (native denom) = if bytes_eq denom (ascii "uusd") then w.coins else 0
held w (cw20 token) = if bytes_eq token (ascii "token") then w.tokens else 0

abbrev pub books_chain : Books → Chain
books_chain w =
    let c = chain w.coins w.tokens w.shares in
    record c {
      bank_balance = λ account denom. ok (held w (native denom));
      cw20_balance = λ token account. ok (held w (cw20 token));
    }

abbrev pub books_deps : Books → Deps
books_deps w = record {
  arith = reference;
  chain = books_chain w;
  contract = pair_address;
  storage = some config;
}

-- Transfers, deposits, mints and burns, by the first byte of the message.
unfoldable pub call_token : Books → Addr → Bytes → Option Books
call_token w token (kind ∷ amount ∷ []) =
    if kind == 116 && bytes_eq token (ascii "token")
    then (if leb amount w.tokens then some (record w { tokens = w.tokens - amount }) else none)
    else if kind == 116
    then some w
    else if kind == 102 && bytes_eq token (ascii "token")
    then some (record w { tokens = w.tokens + amount })
    else if kind == 109 && bytes_eq token share_token
    then some (record w { shares = w.shares + amount })
    else if kind == 98 && bytes_eq token share_token
    then (if leb amount w.shares then some (record w { shares = w.shares - amount }) else none)
    else none
call_token w token msg = none

unfoldable pub deliver : Books → CosmosMsg → Option Books
deliver w (bank_send to (c ∷ [])) =
    if bytes_eq c.denom (ascii "uusd")
    then (if leb c.amount w.coins then some (record w { coins = w.coins - c.amount }) else none)
    else some w
deliver w (wasm_execute token msg funds) = call_token w token msg
deliver w msg = none

abbrev pub trading : Market
trading = record {
  State = Books;
  deps = books_deps;
  config = config;
  holding = held;
  supply = λ w. w.shares;
  deliver = deliver;
}

abbrev coin_name : Bytes
coin_name = ascii "uusd"

abbrev token_name : Bytes
token_name = ascii "token"

coins_paid :
    (w w' : Books) (denom : Bytes) (amount : ℕ) (to : Addr) (a : AssetInfo)
    → deliver w (send_asset (native denom) amount to) ≡ some w'
    → (held w a ≤ held w' a + owed a (record { info = native denom; amount = amount }))
      × (w'.shares ≡ w.shares)
unfolding deliver asset_eq
coins_paid w w' denom amount to (native d) h =
    ground (arith, bytes_eq_iff denom coin_name, bytes_eq_iff d denom, bytes_eq_iff d coin_name)
coins_paid w w' denom amount to (cw20 t) h = ground arith

tokens_paid :
    (w w' : Books) (token : Addr) (amount : ℕ) (a : AssetInfo)
    → call_token w token (116 ∷ amount ∷ []) ≡ some w'
    → (held w a ≤ held w' a + owed a (record { info = cw20 token; amount = amount }))
      × (w'.shares ≡ w.shares)
unfolding call_token asset_eq
tokens_paid w w' token amount (native d) h = ground arith
tokens_paid w w' token amount (cw20 t) h =
    ground (arith, bytes_eq_iff token token_name, bytes_eq_iff t token, bytes_eq_iff t token_name)

tokens_collected :
    (w w' : Books) (token : Addr) (amount : ℕ) (a : AssetInfo)
    → call_token w token (102 ∷ amount ∷ []) ≡ some w'
    → (held w a + owed a (record { info = cw20 token; amount = amount }) ≤ held w' a)
      × (w'.shares ≡ w.shares)
unfolding call_token asset_eq
tokens_collected w w' token amount (native d) h = ground arith
tokens_collected w w' token amount (cw20 t) h =
    ground (arith, bytes_eq_iff token token_name, bytes_eq_iff t token, bytes_eq_iff t token_name)

shares_minted :
    (w w' : Books) (amount : ℕ) (a : AssetInfo)
    → call_token w share_token (109 ∷ amount ∷ []) ≡ some w'
    → (held w a ≤ held w' a) × (w'.shares ≡ w.shares + amount)
unfolding call_token bytes_eq
shares_minted w w' amount (native d) h = ground arith
shares_minted w w' amount (cw20 t) h = ground arith

shares_burned :
    (w w' : Books) (amount : ℕ) (a : AssetInfo)
    → call_token w share_token (98 ∷ amount ∷ []) ≡ some w'
    → (held w a ≤ held w' a) × (w'.shares + amount ≡ w.shares)
unfolding call_token bytes_eq
shares_burned w w' amount (native d) h = ground arith
shares_burned w w' amount (cw20 t) h = ground arith

asset_paid :
    (w w' : Books) (i : AssetInfo) (amount : ℕ) (to : Addr) (a : AssetInfo)
    → deliver w (send_asset i amount to) ≡ some w'
    → (held w a ≤ held w' a + owed a (record { info = i; amount = amount }))
      × (w'.shares ≡ w.shares)
unfolding deliver
asset_paid w w' (native denom) amount to a h = coins_paid w w' denom amount to a h
asset_paid w w' (cw20 token) amount to a h = tokens_paid w w' token amount a h

held_queried :
    (w : Books) (a : AssetInfo) → query_pool (books_chain w) a pair_address ≡ ok (held w a)
unfolding query_pool query_balance query_token_balance
held_queried w (native denom) = refl
held_queried w (cw20 token) = refl

-- A message that was encoded, delivered.
delivered_as :
    (w : Books) {w' : Books} (token : Addr) {encoded msg : Bytes}
    → ◌≡◌ {A = StdResult Bytes} (ok encoded) (ok msg)
    → deliver w (wasm_execute token msg []) ≡ some w'
    → call_token w token encoded ≡ some w'
unfolding deliver
delivered_as w {w'} token e d =
    subst (λ (m : Bytes). call_token w token m ≡ some w') (sym (ok-injective e)) d

abbrev first_letter : AssetInfo → ℕ
first_letter (cw20 (b ∷ bs)) = b
first_letter (cw20 []) = 0
first_letter (native d) = 0

pub trading-IsMarket : IsMarket trading
unfolding query_supply query_fee_info ◌>>=◌
trading-IsMarket = record {
  documented = λ w. reference-IsDocumented;
  stored = λ w. refl;
  balances = held_queried;
  shares = λ w. refl;
  fees = λ w f h.
      let same = ok-injective h in
      subst (λ (g : FeeInfoResponse). g.fee_config.protocol_fee ≤ one) same (omega arith);
  two_assets = λ e. cc;
  not_share_0 = λ e. cc;
  not_share_1 = λ e. omega (arith, ap first_letter e);
  transferred = λ seen w w' asset to msg e d.
      let d' = subst (λ (m : CosmosMsg). deliver w m ≡ some w') (sym (ok-injective e)) d in
      (
        λ a. (asset_paid w w' asset.info asset.amount to a d').0,
        (asset_paid w w' asset.info asset.amount to token_info d').1,
      );
  collected = λ seen w w' token account amount msg ne e d.
      let d' = delivered_as w token e d in
      (
        λ a. (tokens_collected w w' token amount a d').0,
        (tokens_collected w w' token amount token_info d').1,
      );
  minted = λ seen w w' to amount msg e d.
      let d' = delivered_as w share_token e d in
      (λ a. (shares_minted w w' amount a d').0, (shares_minted w w' amount token_info d').1);
  burned = λ seen w w' amount msg e d.
      let d' = delivered_as w share_token e d in
      (λ a ne. (shares_burned w w' amount a d').0, (shares_burned w w' amount token_info d').1);
}
