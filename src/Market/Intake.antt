-- ===== src/Market/Intake.antt =====
-- A deposit with its messages delivered: provide_liquidity of
-- contracts/prismswap_pair/src/contract.rs on the ledgers around it.
use prismswap_contracts.Base.{
  ℕ, ◌+◌, ◌≤◌, ◌<◌, ◌^◌, ◌≡◌, ◌≢◌, refl, sym, ap, arith, Option, some, [], ◌∷◌, ◌++◌, ok, Bytes,
  unwrap_or,
}
use prismswap_contracts.Delivery.{deliver_all, deliver_all-both, deliver_all-cons, deliver_all-done}
use prismswap_contracts.Asset.{
  Addr, AssetInfo, cw20, native, Asset, MessageInfo, assert_sent_native_token_balance,
}
use prismswap_contracts.Messages.{
  transfer_from, mint, cw20_execute, Payload, wasm_execute, Response,
}
use prismswap_contracts.Pair.State.{load-some}
use prismswap_contracts.Pair.Liquidity.{find_amount, provide_liquidity}
use prismswap_contracts.Pair.Liquidity.Deposit.{Held, fetch, Earns, provide_liquidity_answered}
use prismswap_contracts.Market.Ledger.{Market, asset_0, asset_1, share_token, IsMarket}
use prismswap_contracts.Market.Effects.{query_pools_eq, owed_self}

module _ (k : Market) where
  open k use {State, deps, config, holding, supply, deliver}

  -- What an owner has granted the pair of a token is delivered to it, at the cost of no other
  -- grant. `allowed` is the grant, as far as it is covered. The share token has the pair as its
  -- minter and no cap, as the pair instantiates it: it mints any positive amount to an account
  -- whose address the chain finds valid, as long as its supply stays within 128 bits.
  pub record IsTaking (encode : Payload → Bytes) (allowed : State → Addr → Addr → ℕ) : Type 0 where
    pub encodes : (w : State) (msg : Payload) → (deps w).chain.to_binary msg ≡ ok (encode msg)
    pub fetches :
        (seen w : State) (token owner : Addr) (amount : ℕ)
        → owner ≢ (deps seen).contract
        → 0 < amount
        → amount ≤ allowed w token owner
        → (w' : State) × (deliver w (
              wasm_execute token
                (encode (cw20_execute (transfer_from owner (deps seen).contract amount)))
                [])
            ≡ some w')
          × ((t : Addr) → t ≢ token → allowed w t owner ≤ allowed w' t owner)
    pub mints :
        (seen w : State) (to : Bytes) (amount : ℕ)
        → 0 < amount
        → (deps seen).chain.addr_validate to ≡ ok to
        → supply w + amount < 2 ^ 128
        → (w' : State) × (deliver w
              (wasm_execute (share_token k) (encode (cw20_execute (mint to amount))) [])
            ≡ some w')

  -- A deposit of a token is granted, and not zero; coins are there already.
  abbrev pub Granted : (State → Addr → Addr → ℕ) → State → Addr → AssetInfo → ℕ → Type 0
  Granted allowed w owner (cw20 token) deposit = (0 < deposit) × (deposit ≤ allowed w token owner)
  Granted allowed w owner (native denom) deposit = Unit

  module _ (laws : IsMarket k) {encode : Payload → Bytes} {allowed : State → Addr → Addr → ℕ}
      (takes : IsTaking encode allowed) where
    open laws use {documented, stored, shares, collected, minted, two_assets}
    open takes use {encodes, fetches, mints}

    fetch_delivered :
        (seen w : State) (owner : Addr) (i : AssetInfo) (amount deposit before : ℕ)
        → owner ≢ (deps seen).contract
        → amount ≤ holding w i
        → Held (record { info = i; amount = amount }) deposit before
        → Granted allowed w owner i deposit
        → (w' : State) × (deliver_all deliver w (fetch encode owner (deps seen).contract i deposit)
            ≡ some w')
          × (before + deposit ≤ holding w' i)
          × ((a : AssetInfo) → holding w a ≤ holding w' a)
          × (supply w' ≡ supply w)
          × ((t : Addr) → cw20 t ≢ i → allowed w t owner ≤ allowed w' t owner)
    fetch_delivered seen w owner (cw20 token) amount deposit before foreign low held
          (pos, granted) =
        let (w', d, others) = fetches seen w token owner deposit foreign pos granted in
        let (gained, same) = collected seen w w' token owner deposit _ foreign (encodes seen _) d in
        (
          w',
          deliver_all-cons deliver w _ [] d (deliver_all-done deliver w'),
          omega (
            arith,
            gained (cw20 token),
            owed_self (cw20 token) (record { info = cw20 token; amount = deposit }) refl,
            low,
            held,
          ),
          λ a. omega (arith, gained a),
          same,
          λ t differs. others t (λ e. differs (ap cw20 e)),
        )
    fetch_delivered seen w owner (native denom) amount deposit before foreign low held granted = (
      w,
      deliver_all-done deliver w,
      omega (arith, low, held),
      λ a. omega arith,
      refl,
      λ t ne. omega arith,
    )

    -- The grant of the second asset outlives the collection of the first.
    still-Granted :
        (w v : State) (owner : Addr) (i j : AssetInfo) (deposit : ℕ)
        → i ≢ j
        → ((t : Addr) → cw20 t ≢ i → allowed w t owner ≤ allowed v t owner)
        → Granted allowed w owner j deposit
        → Granted allowed v owner j deposit
    still-Granted w v owner i (cw20 token) deposit differ kept (pos, granted) =
        (pos, omega (arith, granted, kept token (λ e. differ (sym e))))
    still-Granted w v owner i (native denom) deposit differ kept granted = tt

    -- Anybody else can provide. In any state of the ledgers in which the coins of a deposit of
    -- another account have come to the pair and its tokens are granted to it, where the deposit
    -- names both assets, the sizes fit and it earns at least one share, be it the first or a later
    -- one within the tolerance, the receiver, or else the sender, is a valid address and the supply
    -- stays within 128 bits, the pair accepts it, every message that it sends is delivered, and
    -- afterwards exactly these shares are new and the pair holds both deposits on top of what it
    -- held before them.
    pub deposit_delivered :
        (w : State) (info : MessageInfo) (assets : Asset × Asset) (tolerance : Option ℕ)
        (receiver : Option Bytes) (deposits before : ℕ × ℕ) (share : ℕ)
        → info.sender ≢ (deps w).contract
        → assert_sent_native_token_balance assets.0 info ≡ ok tt
        → assert_sent_native_token_balance assets.1 info ≡ ok tt
        → find_amount assets (asset_0 k) ≡ some deposits.0
        → find_amount assets (asset_1 k) ≡ some deposits.1
        → Held (record { info = asset_0 k; amount = holding w (asset_0 k) }) deposits.0 before.0
        → Held (record { info = asset_1 k; amount = holding w (asset_1 k) }) deposits.1 before.1
        → Earns (deps w).arith tolerance deposits before (supply w) share
        → 0 < share
        → (deps w).chain.addr_validate (unwrap_or receiver info.sender)
          ≡ ok (unwrap_or receiver info.sender)
        → supply w + share < 2 ^ 128
        → Granted allowed w info.sender (asset_0 k) deposits.0
        → Granted allowed w info.sender (asset_1 k) deposits.1
        → (resp : Response) × (provide_liquidity (deps w) info assets tolerance receiver ≡ ok resp)
          × (resp.messages
              ≡ (fetch encode info.sender (deps w).contract (asset_0 k) deposits.0
                  ++ fetch encode info.sender (deps w).contract (asset_1 k) deposits.1)
                ++ wasm_execute
                    (share_token k)
                    (encode (cw20_execute (mint (unwrap_or receiver info.sender) share)))
                    []
                  ∷ [])
          × (w' : State) × (deliver_all deliver w resp.messages ≡ some w')
          × (supply w' ≡ supply w + share)
          × (before.0 + deposits.0 ≤ holding w' (asset_0 k))
          × (before.1 + deposits.1 ≤ holding w' (asset_1 k))
    deposit_delivered w info assets tolerance receiver deposits before share foreign sent_0 sent_1
          found_0 found_1 held_0 held_1 earns pos valid fits granted_0 granted_1 =
        let (resp, run, messages) =
          provide_liquidity_answered (deps w) (documented w) info encode (encodes w) assets
            tolerance receiver config _ deposits before (supply w) share sent_0 sent_1
            (load-some (stored w)) (query_pools_eq k laws w) found_0 found_1 held_0 held_1
            (shares w) earns pos in
        let (u, d0, in_0, up_0, same_0, kept) =
          fetch_delivered w w info.sender (asset_0 k) _ deposits.0 before.0 foreign (omega arith)
            held_0 granted_0 in
        let (v, d1, in_1, up_1, same_1, _) =
          fetch_delivered w u info.sender (asset_1 k) _ deposits.1 before.1 foreign
            (up_0 (asset_1 k)) held_1
            (still-Granted w u info.sender (asset_0 k) (asset_1 k) deposits.1 two_assets kept
              granted_1) in
        let (w', d2) =
          mints w v (unwrap_or receiver info.sender) share pos valid
            (omega (arith, fits, same_0, same_1)) in
        let (up_2, more) =
          minted w v w' (unwrap_or receiver info.sender) share _ (encodes w _) d2 in
        (
          resp,
          run,
          messages,
          w',
          rw messages (
              deliver_all-both deliver w _ _ (deliver_all-both deliver w _ _ d0 d1)
                (deliver_all-cons deliver v _ [] d2 (deliver_all-done deliver w'))),
          omega (arith, more, same_0, same_1),
          omega (arith, in_0, up_1 (asset_0 k), up_2 (asset_0 k)),
          omega (arith, in_1, up_2 (asset_1 k)),
        )
