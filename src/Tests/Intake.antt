-- ===== src/Tests/Intake.antt =====
-- A deposit on the small ledgers, with what it sends.
use prismswap_contracts.Base.{
  ℕ, ◌+◌, ◌≤◌, ◌<◌, ◌≡◌, refl, arith, none, some, [], ◌∷◌, ok, inl, inr, ascii, bytes_eq,
  Bool-cases, if◌then◌else◌, unwrap_or,
}
use prismswap_contracts.Delivery.{deliver_all}
use prismswap_contracts.Asset.{Addr}
use prismswap_contracts.Messages.{wasm_execute, Response}
use prismswap_contracts.Pair.Liquidity.{provide_liquidity}
use prismswap_contracts.Market.Intake.{IsTaking, deposit_delivered}
use prismswap_contracts.Tests.{
  share_token, coin_info, token_info, coin, token, with_coins, encode_payload,
}
use prismswap_contracts.Tests.Answered.{
  coins_sent, tokens_unsent, coins_found, tokens_found, untolerated,
}
use prismswap_contracts.Tests.Shares.{not_the_pair}
use prismswap_contracts.Tests.Trading.{
  Books, held, books_deps, call_token, deliver, trading, trading-IsMarket,
}

-- Everybody has granted a thousand tokens.
abbrev allowed : Books → Addr → Addr → ℕ
allowed w token_addr account = if bytes_eq token_addr (ascii "token") then 1000 else 0

tokens_fetched :
    (w : Books) (token_addr : Addr) (amount : ℕ)
    → 0 < amount
    → amount ≤ (if bytes_eq token_addr (ascii "token") then 1000 else 0)
    → call_token w token_addr (102 ∷ amount ∷ []) ≡ some (record w { tokens = w.tokens + amount })
unfolding call_token
tokens_fetched w token_addr amount pos le =
    elim (Bool-cases (bytes_eq token_addr (ascii "token"))) [
      | inl same ↦ rw same refl
      | inr other ↦ absurd (omega (arith, pos, rw other at le))
    ]

trading-IsTaking : IsTaking trading encode_payload allowed
unfolding deliver call_token bytes_eq
trading-IsTaking = record {
  encodes = λ w msg. refl;
  fetches = λ seen w token_addr account amount foreign pos le. (
    record w { tokens = w.tokens + amount },
    tokens_fetched w token_addr amount pos le,
    λ t ne. omega arith,
  );
  mints = λ seen w to amount pos valid fits. (record w { shares = w.shares + amount }, refl);
}

abbrev deposited : Books
deposited = record { coins = 1100; tokens = 2000; shares = 100 }

deposit_delivered_example :
    (resp : Response) × (provide_liquidity
        (books_deps deposited)
        (with_coins 100)
        (coin 100, token 200)
        none
        none
      ≡ ok resp)
    × (resp.messages
        ≡ wasm_execute (ascii "token") (102 ∷ 200 ∷ []) []
          ∷ wasm_execute share_token (109 ∷ 10 ∷ []) []
          ∷ [])
    × (w' : Books) × (deliver_all deliver deposited resp.messages ≡ some w')
    × (w'.shares ≡ 100 + 10)
    × (1000 + 100 ≤ held w' coin_info)
    × (2000 + 200 ≤ held w' token_info)
unfolding bytes_eq unwrap_or
deposit_delivered_example =
    deposit_delivered trading trading-IsMarket trading-IsTaking deposited (with_coins 100)
      (coin 100, token 200) none none (100, 200) (1000, 2000) 10 not_the_pair coins_sent
      tokens_unsent coins_found tokens_found refl refl
      (inr (
        omega arith,
        untolerated,
        record { pool_pos = omega arith; product = omega arith; shares = omega arith },
        record { pool_pos = omega arith; product = omega arith; shares = omega arith },
        refl,
      ))
      (omega arith) refl (omega arith) tt (omega arith, omega arith)
