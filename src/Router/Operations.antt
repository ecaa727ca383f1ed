-- ===== src/Router/Operations.antt =====
-- contracts/prismswap_router/src/operations.rs, and `into_swap_msg` of packages/prismswap/src/asset.rs.
use prismswap_contracts.Base.{
  ℕ, Option, none, some, [], ◌∷◌, ok, Bytes, ◌>>=◌, ◌>>◌, ensure, bytes_eq,
}
use prismswap_contracts.Asset.{Addr, StdResult, generic_err, cw20, native, Asset, Coin, MessageInfo}
use prismswap_contracts.Messages.{
  swap, send, cw20_execute, pair_execute, CosmosMsg, wasm_execute, Response,
}
use prismswap_contracts.Chain.{Chain}
use prismswap_contracts.Querier.{query_pair_info, query_balance, query_pool}
use prismswap_contracts.Router.State.{SwapOperation, native_swap, prism_swap, load, Deps, send_all}

-- A message that swaps the asset at the pair: the coins go with it, a token is sent to the pair.
unfoldable pub into_swap_msg : Chain → Asset → Addr → Option ℕ → Option Bytes → StdResult CosmosMsg
into_swap_msg c asset pair_contract max_spread to = elim (asset.info) [
  | native denom ↦ do
    msg ← c.to_binary (pair_execute (swap asset none max_spread to))
    let offer : Coin = record { denom = denom; amount = asset.amount }
    ok (wasm_execute pair_contract msg (offer ∷ []))
  | cw20 contract_addr ↦ do
    hook_msg ← c.to_binary (pair_execute (swap asset none max_spread to))
    msg ← c.to_binary (cw20_execute (send pair_contract asset.amount hook_msg))
    ok (wasm_execute contract_addr msg [])
]

-- With a receiver the chain sends the coins on.
unfoldable pub native_swap_msg : Deps → Option Addr → Coin → Bytes → CosmosMsg
native_swap_msg deps (some to) offer ask_denom = deps.create_swap_send_msg to offer ask_denom
native_swap_msg deps none offer ask_denom = deps.create_swap_msg offer ask_denom

unfoldable pub swap_message : Deps → SwapOperation → Option Addr → StdResult CosmosMsg
swap_message deps (native_swap offer_denom ask_denom) to = do
  amount ← query_balance deps.chain deps.contract offer_denom
  ok (native_swap_msg deps to (record { denom = offer_denom; amount = amount }) ask_denom)
swap_message deps (prism_swap offer_asset_info ask_asset_info) to = do
  config ← load deps.storage
  pair_info ← query_pair_info deps.chain config.factory (offer_asset_info, ask_asset_info)
  amount ← query_pool deps.chain offer_asset_info deps.contract
  into_swap_msg deps.chain (record { info = offer_asset_info; amount = amount })
      pair_info.contract_addr none to

-- All that the router holds of the offered asset is swapped.
unfoldable pub execute_swap_operation :
    Deps → MessageInfo → SwapOperation → Option Addr → StdResult Response
execute_swap_operation deps info operation to = do
  ensure (bytes_eq deps.contract info.sender) (generic_err "unauthorized")
  message ← swap_message deps operation to
  ok (send_all (message ∷ []))
