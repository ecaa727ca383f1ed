-- ===== src/Tests/Exit.antt =====
-- A withdrawal on the small ledgers, with what it sends.
use prismswap_contracts.Base.{
  ℕ, none, ◌+◌, ◌-◌, ◌≤◌, ◌≡◌, refl, arith, some, [], ◌∷◌, ok, inl, inr, ascii, bytes_eq, leb,
  Bool-cases, true,
}
use prismswap_contracts.Delivery.{deliver_all}
use prismswap_contracts.Asset.{Addr, AssetInfo, cw20, native}
use prismswap_contracts.Messages.{wasm_execute, receive, Response}
use prismswap_contracts.Pair.Contract.{execute}
use prismswap_contracts.Market.Pool.{Refined}
use prismswap_contracts.Market.Ledger.{view}
use prismswap_contracts.Market.Exit.{IsPaying, withdrawal_delivered}
use prismswap_contracts.Market.Sale.{swap_delivered}
use prismswap_contracts.Querier.{query_fee_info}
use prismswap_contracts.Pair.Trade.{swap}
use prismswap_contracts.Tests.Answered.{offer_sent, spread_unchecked}
use prismswap_contracts.Tests.{
  alice, coin_info, token_info, share_token, fee_info, config, asset_infos, coin, token, with_coins,
  collector, send_asset, sent_by, encode_payload,
}
use prismswap_contracts.Tests.Liquidity.{withdraw_msg}
use prismswap_contracts.Tests.Trading.{
  Books, held, books_deps, call_token, deliver, trading, trading-IsMarket,
}

asset_pays :
    (w : Books) (i : AssetInfo) (amount : ℕ) (to : Addr)
    → amount ≤ held w i
    → (w' : Books) × (deliver w (send_asset i amount to) ≡ some w') × (w.shares ≤ w'.shares)
unfolding deliver call_token
asset_pays w (native denom) amount to le = elim (Bool-cases (bytes_eq denom (ascii "uusd"))) [
  | inl same ↦
      let enough : leb amount w.coins ≡ true = ground (arith, same, le) in
      (record w { coins = w.coins - amount }, rw (same, enough) refl, omega arith)
  | inr other ↦ (w, rw other refl, omega arith)
]
asset_pays w (cw20 token) amount to le = elim (Bool-cases (bytes_eq token (ascii "token"))) [
  | inl same ↦
      let enough : leb amount w.tokens ≡ true = ground (arith, same, le) in
      (record w { tokens = w.tokens - amount }, rw (same, enough) refl, omega arith)
  | inr other ↦ (w, rw other refl, omega arith)
]

shares_burn :
    (w : Books) (amount : ℕ)
    → amount ≤ w.shares
    → (w' : Books) × (call_token w share_token (98 ∷ amount ∷ []) ≡ some w')
unfolding call_token bytes_eq
shares_burn w amount le =
    let enough : leb amount w.shares ≡ true = ground arith in
    (record w { shares = w.shares - amount }, rw enough refl)

abbrev before : Books
before = record { coins = 1100; tokens = 2200; shares = 110 }

-- The account has a valid address.
abbrev IsAccount : Addr → Type 0
IsAccount to = (books_deps before).chain.addr_validate to ≡ ok to

trading-IsPaying :
    IsPaying trading IsAccount
      (λ asset to. send_asset asset.info asset.amount to)
      encode_payload
      (λ w. w.shares)
unfolding deliver
trading-IsPaying = record {
  transfers = λ w asset to. refl;
  encodes = λ w msg. refl;
  paid = λ w asset to valid other pos le. asset_pays w asset.info asset.amount to le;
  burns = λ w amount pos le. shares_burn w amount le;
}

withdrawal_delivered_example :
    (resp : Response) × (execute (books_deps before) (sent_by share_token) (receive withdraw_msg)
      ≡ ok resp)
    × (resp.messages
        ≡ send_asset coin_info 99 alice
          ∷ send_asset token_info 199 alice
          ∷ wasm_execute share_token (98 ∷ 10 ∷ []) []
          ∷ [])
    × (w' : Books) × (deliver_all deliver before resp.messages ≡ some w')
    × (w'.shares + 10 ≡ 110)
    × Refined (view trading before) (view trading w')
unfolding bytes_eq
withdrawal_delivered_example =
    withdrawal_delivered trading trading-IsMarket trading-IsPaying before (sent_by share_token)
      withdraw_msg refl refl refl (omega arith) (omega arith)
      (record {
        total_pos = omega arith;
        owned = omega arith;
        share_fits = omega arith;
        pool_fits = omega arith;
        product_fits = omega arith;
      })
      (record {
        total_pos = omega arith;
        owned = omega arith;
        share_fits = omega arith;
        pool_fits = omega arith;
        product_fits = omega arith;
      })
      (omega arith) (omega arith)

abbrev offered : Books
offered = record { coins = 1001000; tokens = 2000000; shares = 100 }

fees_asked : query_fee_info (books_deps offered).chain config.factory asset_infos ≡ ok fee_info
unfolding query_fee_info
fees_asked = refl

swap_delivered_example :
    (resp : Response) × (swap
        (books_deps offered)
        (with_coins 1000)
        alice
        (coin 1000)
        none
        none
        none
      ≡ ok resp)
    × (resp.messages ≡ send_asset token_info 1993 alice ∷ send_asset token_info 1 collector ∷ [])
    × (w' : Books) × (deliver_all deliver offered resp.messages ≡ some w')
    × (w'.shares ≡ 100)
    × (held offered token_info ≤ held w' token_info + 1998)
unfolding bytes_eq
swap_delivered_example =
    swap_delivered trading trading-IsMarket trading-IsPaying offered (with_coins 1000) alice
      (coin 1000) none none none 1000000 (token 2000000) fee_info offer_sent
      (inl (refl, refl, refl)) fees_asked
      (record {
        offer_pos = omega arith;
        offer_pool = omega arith;
        ask_pool = omega arith;
        offer = omega arith;
        rate = omega arith;
        product = omega arith;
        value = omega arith;
      })
      (omega arith) (omega arith) spread_unchecked refl refl
