-- ===== src/Market/Ledger.antt =====
-- The chain around one pair. The bank, the token contracts and the factory are not part of the pair,
-- so their states and what they do with a message of the pair are a record of operations, and what
-- they document a second record.
use prismswap_contracts.Base.{
  ℕ, ◌+◌, ◌≤◌, ◌≡◌, ◌≢◌, Option, none, some, List, [], ok, Bytes, if◌then◌else◌,
}
use prismswap_contracts.Numbers.{one, IsDocumented}
use prismswap_contracts.Delivery.{deliver_all}
use prismswap_contracts.Asset.{
  Addr, AssetInfo, cw20, native, Asset, Coin, MessageInfo, asset_eq, find_coin,
}
use prismswap_contracts.Messages.{
  FeeInfoResponse, transfer_from, mint, burn, cw20_execute, CosmosMsg, wasm_execute, PairExecuteMsg,
  receive, provide_liquidity, swap, Response,
}
use prismswap_contracts.Querier.{query_pool, query_supply, query_fee_info}
use prismswap_contracts.Pair.State.{Config, Deps}
use prismswap_contracts.Pair.Contract.{execute}
use prismswap_contracts.Market.Pool.{Pool}

pub record Market : Type 1 where
  -- a state of the bank, of the tokens and of the factory
  pub State : Type 0
  -- what the handlers of the pair see in a state
  pub deps : State → Deps
  pub config : Config
  -- the pair's own balance of an asset, and how many shares there are
  pub holding : State → AssetInfo → ℕ
  pub supply : State → ℕ
  -- a message of the pair, delivered; `none` where it fails, which reverts the whole call
  pub deliver : State → CosmosMsg → Option State

-- The amount that an asset takes of a balance.
abbrev pub owed : AssetInfo → Asset → ℕ
owed a asset = if asset_eq a asset.info then asset.amount else 0

-- The amount of the coins that came with a message.
abbrev pub sent_coins : Bytes → List Coin → ℕ
sent_coins denom funds = elim (find_coin denom funds) [ some c ↦ c.amount | none ↦ 0 ]

-- What a message brings to the pair: its coins, and the tokens of which a token contract reports the
-- transfer.
abbrev pub incoming : MessageInfo → PairExecuteMsg → AssetInfo → ℕ
incoming info msg (native denom) = sent_coins denom info.funds
incoming info (receive m) (cw20 token) =
    owed (cw20 token) (record { info = cw20 info.sender; amount = m.amount })
incoming info (provide_liquidity assets tolerance receiver) (cw20 token) = 0
incoming info (swap offer_asset belief_price max_spread to) (cw20 token) = 0

module _ (k : Market) where
  open k use {State, deps, config, holding, supply, deliver}

  abbrev pub asset_0 : AssetInfo
  asset_0 = config.pair_info.asset_infos.0

  abbrev pub asset_1 : AssetInfo
  asset_1 = config.pair_info.asset_infos.1

  abbrev pub share_token : Addr
  share_token = config.pair_info.liquidity_token

  abbrev pub view : State → Pool
  view w = record { first = holding w asset_0; second = holding w asset_1; shares = supply w }

  -- What the queries answer and what the delivery of each kind of message does. A balance may grow by
  -- more than is said here, where a payment comes back to the pair.
  pub record IsMarket : Type 0 where
    pub documented : (w : State) → IsDocumented (deps w).arith
    pub stored : (w : State) → (deps w).storage ≡ some config
    pub balances :
        (w : State) (a : AssetInfo)
        → query_pool (deps w).chain a (deps w).contract ≡ ok (holding w a)
    pub shares : (w : State) → query_supply (deps w).chain share_token ≡ ok (supply w)
    pub fees :
        (w : State) (f : FeeInfoResponse)
        → query_fee_info (deps w).chain config.factory config.pair_info.asset_infos ≡ ok f
        → f.fee_config.protocol_fee ≤ one
    -- the assets of the pair are two, and neither is its share token
    pub two_assets : asset_0 ≢ asset_1
    pub not_share_0 : asset_0 ≢ cw20 share_token
    pub not_share_1 : asset_1 ≢ cw20 share_token
    pub transferred :
        (seen w w' : State) (asset : Asset) (to : Addr) (msg : CosmosMsg)
        → (deps seen).chain.transfer_msg asset to ≡ ok msg
        → deliver w msg ≡ some w'
        → ((a : AssetInfo) → holding w a ≤ holding w' a + owed a asset) × (supply w' ≡ supply w)
    pub collected :
        (seen w w' : State) (token owner : Addr) (amount : ℕ) (msg : Bytes)
        → owner ≢ (deps seen).contract
        → (deps seen).chain.to_binary
            (cw20_execute (transfer_from owner (deps seen).contract amount))
          ≡ ok msg
        → deliver w (wasm_execute token msg []) ≡ some w'
        → ((a : AssetInfo)
            → holding w a + owed a (record { info = cw20 token; amount = amount }) ≤ holding w' a)
          × (supply w' ≡ supply w)
    pub minted :
        (seen w w' : State) (to : Bytes) (amount : ℕ) (msg : Bytes)
        → (deps seen).chain.to_binary (cw20_execute (mint to amount)) ≡ ok msg
        → deliver w (wasm_execute share_token msg []) ≡ some w'
        → ((a : AssetInfo) → holding w a ≤ holding w' a) × (supply w' ≡ supply w + amount)
    pub burned :
        (seen w w' : State) (amount : ℕ) (msg : Bytes)
        → (deps seen).chain.to_binary (cw20_execute (burn amount)) ≡ ok msg
        → deliver w (wasm_execute share_token msg []) ≡ some w'
        → ((a : AssetInfo) → a ≢ cw20 share_token → holding w a ≤ holding w' a)
          × (supply w' + amount ≡ supply w)

  -- What a message brings is there when the handler runs, and nothing has left the pair.
  pub record Arrived (w : State) (info : MessageInfo) (msg : PairExecuteMsg) (w' : State)
      : Type 0 where
    pub first : holding w asset_0 + incoming info msg asset_0 ≤ holding w' asset_0
    pub second : holding w asset_1 + incoming info msg asset_1 ≤ holding w' asset_1
    pub shares : supply w' ≡ supply w

  -- One transaction. The pair does not send messages to itself, and its balances are within the size
  -- at which the rounding of a price does not cost the pool anything.
  pub data MarketStep (w w' : State) : Type 0 where
    called :
        (arrived : State) (info : MessageInfo) (msg : PairExecuteMsg) (resp : Response)
        → Arrived w info msg arrived
        → info.sender ≢ (deps arrived).contract
        → holding arrived asset_0 ≤ one
        → holding arrived asset_1 ≤ one
        → execute (deps arrived) info msg ≡ ok resp
        → deliver_all deliver arrived resp.messages ≡ some w'
        → MarketStep w w'
    -- somebody else acts: only the pair moves its balances and mints shares
    others :
        holding w asset_0 ≤ holding w' asset_0
        → holding w asset_1 ≤ holding w' asset_1
        → supply w' ≤ supply w
        → MarketStep w w'
