-- ===== src/System/Route.antt =====
-- A route that is simulated, and then traded: simulate_swap_operations of
-- contracts/prismswap_router/src/contract.rs with the swaps of contracts/prismswap_pair/src/contract.rs.
use prismswap_contracts.Base.{
  ℕ, ◌<◌, ◌≤◌, ◌≡◌, refl, ◌∙◌, ap, not, Option, List, [], ◌∷◌, ok, Bytes, length, bind-ok,
  ensure-true, le→ltb, pos→==,
}
use prismswap_contracts.Asset.{Addr, Asset, AssetInfo, MessageInfo, PairInfo}
use prismswap_contracts.Messages.{SimulationResponse, Response}
use prismswap_contracts.Numbers.{IsDocumented}
use prismswap_contracts.Querier.{query_pools, query_fee_info, query_pair_info}
use prismswap_contracts.Pair.State.{Config, load as load_pair, Deps as PairDeps}
use prismswap_contracts.Pair.Trade.{swap}
use prismswap_contracts.Pair.Trade.Traded.{Traded}
use prismswap_contracts.Pair.Query.{query_simulation}
use prismswap_contracts.Pair.Query.Agreement.{LessOffer, query_simulation-Traded}
use prismswap_contracts.Router.State.{
  max_swap_operations, SwapOperation, native_swap, prism_swap, Config as RouterConfig, load, Deps,
}
use prismswap_contracts.Router.Contract.{
  simulate_operation, simulate_each, simulate_swap_operations,
}

-- A swap of `x` at the pair that the factory names, which returned `y`: the pair stood as at the
-- simulation, but for the offer that came in, and its simulation query is what the chain answers with.
pub record Hop (deps : Deps) (factory : Addr) (offer ask : AssetInfo) (x y : ℕ) : Type 0 where
  pub pair_info : PairInfo
  pub registered : query_pair_info deps.chain factory (offer, ask) ≡ ok pair_info
  pub pair : PairDeps
  pub documented : IsDocumented pair.arith
  pub earlier : PairDeps
  pub same_arith : earlier.arith ≡ pair.arith
  pub config : Config
  pub loaded_before : load_pair earlier.storage ≡ ok config
  pub loaded : load_pair pair.storage ≡ ok config
  pub before : Asset × Asset
  pub queried_before :
      query_pools earlier.chain config.pair_info config.pair_info.contract_addr ≡ ok before
  pub pools : Asset × Asset
  pub queried : query_pools pair.chain config.pair_info pair.contract ≡ ok pools
  pub less : LessOffer (record { info = offer; amount = x }) before pools
  pub same_fees :
      query_fee_info earlier.chain config.factory config.pair_info.asset_infos
      ≡ query_fee_info pair.chain config.factory config.pair_info.asset_infos
  pub info : MessageInfo
  pub sender : Addr
  pub max_spread : Option ℕ
  pub belief_price : Option ℕ
  pub to : Option Addr
  pub resp : Response
  pub swapped :
      swap pair info sender (record { info = offer; amount = x }) belief_price max_spread to
      ≡ ok resp
  pub traded :
      Traded pair info sender (record { info = offer; amount = x }) belief_price max_spread to resp
  pub returned : traded.return_amount ≡ y
  pub answered :
      (res : SimulationResponse)
      → query_simulation earlier (record { info = offer; amount = x }) ≡ ok res
      → deps.chain.simulation pair_info.contract_addr (record { info = offer; amount = x }) ≡ ok res

-- The operations of a route, one after the other: what each returned is offered to the next.
pub data Journey (deps : Deps) (factory : Addr) : List SwapOperation → ℕ → ℕ → Type 0 where
  arrived : {x : ℕ} → Journey deps factory [] x x
  hop :
      {offer ask : AssetInfo} {operations : List SwapOperation} {x y z : ℕ}
      → Hop deps factory offer ask x y
      → Journey deps factory operations y z
      → Journey deps factory (prism_swap offer ask ∷ operations) x z
  exchange :
      {offer_denom ask_denom : Bytes} {operations : List SwapOperation} {x y z : ℕ}
      → deps.query_swap (record { denom = offer_denom; amount = x }) ask_denom ≡ ok y
      → Journey deps factory operations y z
      → Journey deps factory (native_swap offer_denom ask_denom ∷ operations) x z

module _ (deps : Deps) (factory : Addr) where
  simulate_operation-Hop :
      (offer ask : AssetInfo) (x y : ℕ)
      → Hop deps factory offer ask x y
      → simulate_operation deps factory (prism_swap offer ask) x ≡ ok y
  unfolding simulate_operation
  simulate_operation-Hop offer ask x y s =
      bind-ok _ s.registered
      ∙ bind-ok _ (
          s.answered _ (
            query_simulation-Traded s.pair s.earlier s.documented s.info s.sender
              (record { info = offer; amount = x }) s.belief_price s.max_spread s.to s.config
              s.before s.pools s.same_arith s.loaded_before s.loaded s.queried_before s.queried
              s.less s.same_fees s.traded))
      ∙ ap ok s.returned

  simulate_each-Journey :
      {operations : List SwapOperation} {x z : ℕ}
      → Journey deps factory operations x z
      → simulate_each deps factory operations x ≡ ok z
  unfolding simulate_each simulate_operation
  simulate_each-Journey arrived = refl
  simulate_each-Journey (hop s rest) =
      bind-ok _ (simulate_operation-Hop _ _ _ _ s) ∙ simulate_each-Journey rest
  simulate_each-Journey (exchange e rest) = bind-ok _ e ∙ simulate_each-Journey rest

-- A simulated route tells what the route gives. Where a router with a factory is asked for a route of
-- 1 to 50 operations, and the operations are then traded one after the other, each at a pair that has
-- not changed since, the amount that the simulation answers is what the last one returns.
pub simulate_swap_operations-Journey :
    (deps : Deps) (config : RouterConfig) {operations : List SwapOperation} {x z : ℕ}
    → load deps.storage ≡ ok config
    → 0 < length operations
    → length operations ≤ max_swap_operations
    → Journey deps config.factory operations x z
    → simulate_swap_operations deps x operations ≡ ok z
unfolding simulate_swap_operations
simulate_swap_operations-Journey deps config {operations} loaded some_operations few journey =
    bind-ok _ loaded
    ∙ ensure-true _ _ (ap not (pos→== (length operations) some_operations))
    ∙ ensure-true _ _ (ap not (le→ltb _ _ few))
    ∙ simulate_each-Journey deps config.factory journey
