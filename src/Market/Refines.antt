-- ===== src/Market/Refines.antt =====
-- The pair on its chain is an implementation of the abstract pool, and what that means for those who
-- hold shares.
use prismswap_contracts.Base.{
  ℕ, ◌≤◌, ◌<◌, ◌≡◌, ◌≢◌, refl, sym, arith, Option, some, ok, inl, inr, map_err-elim, ensure-elim,
  >>=-elim, Bytes, true,
}
use prismswap_contracts.Numbers.{one}
use prismswap_contracts.Delivery.{deliver_all}
use prismswap_contracts.Asset.{
  Addr, AssetInfo, cw20, native, Asset, MessageInfo, is_native_token,
  assert_sent_native_token_balance,
}
use prismswap_contracts.Messages.{
  Cw20ReceiveMsg, PairExecuteMsg, receive, provide_liquidity as provide_msg, swap as swap_msg,
  Response,
}
use prismswap_contracts.Pair.State.{Deps}
use prismswap_contracts.Pair.Trade.{swap}
use prismswap_contracts.Pair.Contract.{execute}
use prismswap_contracts.Pair.Contract.Authority.{execute_receive}
use prismswap_contracts.Market.Pool.{
  given, Refined, IsWorth, Grown-IsWorth, PoolStep-IsWorth, IsWorth-trans,
}
use prismswap_contracts.Market.Ledger.{
  Market, sent_coins, incoming, asset_0, asset_1, view, IsMarket, Arrived, MarketStep, called,
  others,
}
use prismswap_contracts.Market.Effects.{owed_self, sent-amount}
use prismswap_contracts.Market.Trades.{swap_refines}
use prismswap_contracts.Market.Deposits.{provide_refines}
use prismswap_contracts.Market.Withdrawals.{withdraw_refines}

-- The offered asset of a swap passed the check on the coins that came.
swap-sent :
    (deps : Deps) (info : MessageInfo) (sender : Addr) (offer_asset : Asset)
    (belief_price max_spread : Option ℕ) (to : Option Addr) {resp : Response}
    → swap deps info sender offer_asset belief_price max_spread to ≡ ok resp
    → assert_sent_native_token_balance offer_asset info ≡ ok tt
unfolding swap
swap-sent deps info sender offer_asset belief_price max_spread to h =
    map_err-elim {C = assert_sent_native_token_balance offer_asset info ≡ ok tt} _ _ _ h λ u e h. e

incoming-offer :
    (info : MessageInfo) (offer_asset : Asset) (belief_price max_spread : Option ℕ)
    (to : Option Addr) (a : AssetInfo)
    → is_native_token offer_asset.info ≡ true
    → assert_sent_native_token_balance offer_asset info ≡ ok tt
    → a ≡ offer_asset.info
    → incoming info (swap_msg offer_asset belief_price max_spread to) a ≡ offer_asset.amount
unfolding is_native_token
incoming-offer info offer_asset belief_price max_spread to (native denom) n h e =
    sent-amount offer_asset info denom (sym e) h
incoming-offer info offer_asset belief_price max_spread to (cw20 token) n h e =
    absurd (cc (rw (sym e) at n))

incoming-token :
    (info : MessageInfo) (m : Cw20ReceiveMsg) (a : AssetInfo)
    → a ≡ cw20 info.sender
    → incoming info (receive m) a ≡ m.amount
incoming-token info m (native denom) e = cc
incoming-token info m (cw20 token) e =
    owed_self (cw20 token) (record { info = cw20 info.sender; amount = m.amount }) e

incoming-denom :
    (info : MessageInfo) (msg : PairExecuteMsg) (a : AssetInfo) (denom : Bytes)
    → a ≡ native denom
    → incoming info msg a ≡ sent_coins denom info.funds
incoming-denom info msg (native d) denom e = let same : d ≡ denom = cc in rw same refl
incoming-denom info msg (cw20 token) denom e = cc

module _ (k : Market) (laws : IsMarket k) where
  open k use {State, deps, config, holding, supply}
  open laws use {documented}

  called_refines :
      (w w1 w' : State) (info : MessageInfo) (msg : PairExecuteMsg) {resp : Response}
      → Arrived k w info msg w1
      → info.sender ≢ (deps w1).contract
      → holding w1 (asset_0 k) ≤ one
      → holding w1 (asset_1 k) ≤ one
      → execute (deps w1) info msg ≡ ok resp
      → deliver_all k.deliver w1 resp.messages ≡ some w'
      → Refined (view k w) (view k w')
  unfolding execute
  called_refines w w1 w' info (receive m) came foreign small_0 small_1 h delivered =
      let (found, loaded, done) = execute_receive (deps w1) (documented w1) info m h in
      elim done [
        | inl (belief_price, max_spread, to, side, h) ↦
            swap_refines k laws w w1 w' info m.sender
              (record { info = cw20 info.sender; amount = m.amount }) belief_price max_spread to
              came.shares (omega (arith, came.first)) (omega (arith, came.second))
              (λ e. omega (arith, came.first, incoming-token info m (asset_0 k) e))
              (λ e. omega (arith, came.second, incoming-token info m (asset_1 k) e)) delivered
              small_0 small_1 h
        | inr (authorized, h) ↦
            withdraw_refines k laws w w1 w' info m.sender m.amount came.shares
              (omega (arith, came.first)) (omega (arith, came.second)) h delivered
      ]
  called_refines w w1 w' info (provide_msg assets tolerance receiver) came foreign small_0 small_1 h
        delivered =
      map_err-elim _ _ _ h λ u e0 h. map_err-elim _ _ _ h λ v e1 h.
        provide_refines k laws w w1 w' info assets tolerance receiver foreign came.shares
          (omega (arith, came.first)) (omega (arith, came.second))
          (λ denom e. omega (
            arith,
            came.first,
            incoming-denom info (provide_msg assets tolerance receiver) (asset_0 k) denom e,
          ))
          (λ denom e. omega (
            arith,
            came.second,
            incoming-denom info (provide_msg assets tolerance receiver) (asset_1 k) denom e,
          ))
          h delivered
  called_refines w w1 w' info (swap_msg offer_asset belief_price max_spread to) came foreign small_0
        small_1 h delivered =
      map_err-elim _ _ _ h λ u e0 h. ensure-elim _ _ _ h λ is_native h.
        >>=-elim _ _ h λ to_addr e1 h.
          let sent =
            swap-sent (deps w1) info info.sender offer_asset belief_price max_spread to_addr h in
          swap_refines k laws w w1 w' info info.sender offer_asset belief_price max_spread to_addr
            came.shares (omega (arith, came.first)) (omega (arith, came.second))
            (λ e. omega (
              arith,
              came.first,
              incoming-offer info offer_asset belief_price max_spread to (asset_0 k) is_native sent
                  e,
            ))
            (λ e. omega (
              arith,
              came.second,
              incoming-offer info offer_asset belief_price max_spread to (asset_1 k) is_native sent
                  e,
            ))
            delivered small_0 small_1 h

  -- One transaction, of the pair's or of anybody else, is one operation of the abstract pool, or
  -- nothing but a gift to it: the pair's balances and the supply of its shares change as the pool's
  -- reserves and shares do, up to what was given to the pair before and after.
  pub MarketStep-refines : (w w' : State) → MarketStep k w w' → Refined (view k w) (view k w')
  MarketStep-refines w w' (called w1 info msg resp came foreign small_0 small_1 h delivered) =
      called_refines w w1 w' info msg came foreign small_0 small_1 h delivered
  MarketStep-refines w w' (others first second fewer) = record {
    entered = view k w;
    left = view k w';
    before = record { first = omega arith; second = omega arith; shares = refl };
    acted = given first second fewer;
    after = record { first = omega arith; second = omega arith; shares = refl };
  }

  -- The states after a series of transactions in all of which the pool has shares.
  pub data Run (w : State) : State → Type 0 where
    start : 0 < supply w → Run w w
    next : {v v' : State} → Run w v → MarketStep k v v' → 0 < supply v' → Run w v'

  pub Run-supply : {w w' : State} → Run w w' → 0 < supply w'
  Run-supply (start pos) = pos
  Run-supply (next r step pos) = pos

  Refined-IsWorth :
      (w w' : State)
      → 0 < supply w
      → 0 < supply w'
      → Refined (view k w) (view k w')
      → IsWorth (view k w) (view k w')
  Refined-IsWorth w w' pos pos' r =
      let entered_pos : 0 < r.entered.shares = omega (arith, pos, r.before.shares) in
      let left_pos : 0 < r.left.shares = omega (arith, pos', r.after.shares) in
      IsWorth-trans (view k w) r.entered (view k w') entered_pos
        (Grown-IsWorth (view k w) r.entered r.before)
        (IsWorth-trans r.entered r.left (view k w') left_pos
          (PoolStep-IsWorth r.entered r.left entered_pos r.acted)
          (Grown-IsWorth r.left (view k w') r.after))

  -- Whatever happens, in any order and by anybody, as long as there are shares: a share is worth no
  -- less than before. The product of the pair's balances, by the square of the number of shares, never
  -- falls.
  pub Run-IsWorth : {w w' : State} → Run w w' → IsWorth (view k w) (view k w')
  Run-IsWorth {w} (start pos) = omega arith
  Run-IsWorth {w} {w'} (next {v = v} r step pos) =
      IsWorth-trans (view k w) (view k v) (view k w') (Run-supply r) (Run-IsWorth r)
        (Refined-IsWorth v w' (Run-supply r) pos (MarketStep-refines v w' step))
