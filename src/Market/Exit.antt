-- ===== src/Market/Exit.antt =====
-- A withdrawal with its messages delivered: withdraw_liquidity of
-- contracts/prismswap_pair/src/contract.rs on the ledgers around it.
use prismswap_contracts.Base.{
  ℕ, ◌+◌, ◌≤◌, ◌<◌, ◌≡◌, ◌≢◌, refl, sym, ◌∙◌, arith, some, List, [], ◌∷◌, ok, Bytes, map_err-ok,
  le_of_mul-le-mul_right, mul-le-mul_right, Option,
}
use prismswap_contracts.Delivery.{deliver_all}
use prismswap_contracts.Asset.{Addr, AssetInfo, cw20, Asset, MessageInfo}
use prismswap_contracts.Messages.{
  Cw20ReceiveMsg, receive, withdraw_liquidity as withdraw_msg, burn, cw20_execute, Payload,
  CosmosMsg, wasm_execute, Response,
}
use prismswap_contracts.Pair.State.{Deps}
use prismswap_contracts.Pair.Liquidity.{withdraw_liquidity}
use prismswap_contracts.Pair.Liquidity.Shares.{refund, refund-le}
use prismswap_contracts.Pair.Liquidity.Redeem.{FitsRefund, withdraw_liquidity_answered}
use prismswap_contracts.Pair.Contract.{hook, receive_cw20, execute}
use prismswap_contracts.Market.Pool.{Refined}
use prismswap_contracts.Market.Ledger.{Market, asset_0, asset_1, share_token, view, IsMarket}
use prismswap_contracts.Market.Effects.{query_pools_eq, owed_other}
use prismswap_contracts.Market.Withdrawals.{withdraw_refines}

-- A refund is covered by its pool.
refund-within : (pool share total : ℕ) → 0 < total → share ≤ total → refund pool share total ≤ pool
refund-within pool share total pos le =
    le_of_mul-le-mul_right {k = total}
      (omega (arith, refund-le pool share total pos, mul-le-mul_right pool le)) pos

deliver_all-three :
    {S : Type 0} (deliver : S → CosmosMsg → Option S) (w : S) (a b c : CosmosMsg) {u v w' : S}
    {msgs : List CosmosMsg}
    → msgs ≡ a ∷ b ∷ c ∷ []
    → deliver w a ≡ some u
    → deliver u b ≡ some v
    → deliver v c ≡ some w'
    → deliver_all deliver w msgs ≡ some w'
unfolding deliver_all
deliver_all-three deliver w a b c sent d0 d1 d2 =
    rw (sent, deliver_all, d0, deliver_all, d1, deliver_all, d2, deliver_all) refl

-- The message that the share token reports is a withdrawal.
execute-withdraws :
    (deps : Deps) (info : MessageInfo) (m : Cw20ReceiveMsg)
    → deps.chain.from_binary m.msg ≡ ok withdraw_msg
    → execute deps info (receive m) ≡ withdraw_liquidity deps info m.sender m.amount
unfolding execute receive_cw20 hook
execute-withdraws deps info m decoded = map_err-ok _ _ decoded

module _ (k : Market) where
  open k use {State, deps, config, holding, supply, deliver}

  -- What is paid out of a balance that covers it to an account that can be paid is delivered, and
  -- so is the burning of shares that the pair holds. `Payable` says which accounts can be paid, and
  -- `own_shares` are the shares that the pair itself holds.
  pub record IsPaying (Payable : Addr → Type 0) (transfer : Asset → Addr → CosmosMsg)
      (encode : Payload → Bytes) (own_shares : State → ℕ) : Type 0 where
    pub transfers :
        (w : State) (asset : Asset) (to : Addr)
        → (deps w).chain.transfer_msg asset to ≡ ok (transfer asset to)
    pub encodes : (w : State) (msg : Payload) → (deps w).chain.to_binary msg ≡ ok (encode msg)
    pub paid :
        (w : State) (asset : Asset) (to : Addr)
        → Payable to
        → asset.info ≢ cw20 (share_token k)
        → 0 < asset.amount
        → asset.amount ≤ holding w asset.info
        → (w' : State) × (deliver w (transfer asset to) ≡ some w') × (own_shares w ≤ own_shares w')
    pub burns :
        (w : State) (amount : ℕ)
        → 0 < amount
        → amount ≤ own_shares w
        → (w' : State) × (deliver w
              (wasm_execute (share_token k) (encode (cw20_execute (burn amount))) [])
            ≡ some w')

  -- The refund of an asset for the shares, as the pair holds it.
  abbrev pub refund_of : State → ℕ → AssetInfo → Asset
  refund_of w share a = record { info = a; amount = refund (holding w a) share (supply w) }

  module _ (laws : IsMarket k) {Payable : Addr → Type 0} {transfer : Asset → Addr → CosmosMsg}
      {encode : Payload → Bytes} {own_shares : State → ℕ}
      (pays : IsPaying Payable transfer encode own_shares) where
    open laws use {
      documented, stored, shares, transferred, burned, two_assets, not_share_0, not_share_1,
    }
    open pays use {transfers, encodes, paid, burns}

    -- Whoever holds shares can leave. In any state of the ledgers in which the shares have come to
    -- the pair, where the message of the share token withdraws one or more for an account that can
    -- be paid, the sizes fit and neither refund is zero, the pair accepts it and sends both refunds
    -- to the holder and the shares to be burned, every message is delivered, and afterwards exactly
    -- these shares are gone and the pool has made one operation of the abstract pool.
    pub withdrawal_delivered :
        (w : State) (info : MessageInfo) (m : Cw20ReceiveMsg)
        → info.sender ≡ share_token k
        → (deps w).chain.from_binary m.msg ≡ ok withdraw_msg
        → Payable m.sender
        → 0 < m.amount
        → m.amount ≤ own_shares w
        → FitsRefund (deps w).arith (holding w (asset_0 k)) m.amount (supply w)
        → FitsRefund (deps w).arith (holding w (asset_1 k)) m.amount (supply w)
        → 0 < refund (holding w (asset_0 k)) m.amount (supply w)
        → 0 < refund (holding w (asset_1 k)) m.amount (supply w)
        → (resp : Response) × (execute (deps w) info (receive m) ≡ ok resp)
          × (resp.messages
              ≡ transfer (refund_of w m.amount (asset_0 k)) m.sender
                ∷ transfer (refund_of w m.amount (asset_1 k)) m.sender
                ∷ wasm_execute (share_token k) (encode (cw20_execute (burn m.amount))) []
                ∷ [])
          × (w' : State) × (deliver_all deliver w resp.messages ≡ some w')
          × (supply w' + m.amount ≡ supply w)
          × Refined (view k w) (view k w')
    withdrawal_delivered w info m authorized decoded payable pos held z_0 z_1 some_0 some_1 =
        let (resp, run, sent) =
          withdraw_liquidity_answered (deps w) (documented w) info m.sender m.amount config _ _
            transfer encode (stored w) authorized (query_pools_eq k laws w) (shares w) z_0 z_1
            (transfers w) (encodes w) in
        let (v0, d0, own_0) =
          paid w (refund_of w m.amount (asset_0 k)) m.sender payable not_share_0 some_0
            (refund-within (holding w (asset_0 k)) m.amount (supply w) z_0.total_pos z_0.owned) in
        let (out_0, same_0) =
          transferred w w v0 (refund_of w m.amount (asset_0 k)) m.sender _ (transfers w _ m.sender)
            d0 in
        let untouched =
          owed_other (asset_1 k) (refund_of w m.amount (asset_0 k)) (λ e. two_assets (sym e)) in
        let within =
          refund-within (holding w (asset_1 k)) m.amount (supply w) z_1.total_pos z_1.owned in
        let (v1, d1, own_1) =
          paid v0 (refund_of w m.amount (asset_1 k)) m.sender payable not_share_1 some_1
            (omega (arith, out_0 (asset_1 k), untouched, within)) in
        let (out_1, same_1) =
          transferred w v0 v1 (refund_of w m.amount (asset_1 k)) m.sender _ (transfers w _ m.sender)
            d1 in
        let (w', d2) = burns v1 m.amount pos (omega (arith, held, own_0, own_1)) in
        let (out_2, gone) = burned w v1 w' m.amount _ (encodes w _) d2 in
        let all = deliver_all-three deliver w _ _ _ sent d0 d1 d2 in
        (
          resp,
          execute-withdraws (deps w) info m decoded ∙ run,
          sent,
          w',
          all,
          omega (arith, gone, same_0, same_1),
          withdraw_refines k laws w w w' info m.sender m.amount refl (omega arith) (omega arith) run
              all,
        )
