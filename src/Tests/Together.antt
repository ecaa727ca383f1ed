-- ===== src/Tests/Together.antt =====
-- The contracts together, on a small chain.
use prismswap_contracts.Base.{
  ◌+◌, ◌*◌, ◌≤◌, ◌≡◌, refl, sym, ap, ok-injective, ◌∙◌, some, none, [], ◌∷◌, ok, inl, inr, arith,
  ascii, must, ◌>>=◌,
}
use prismswap_contracts.Numbers.Reference.{reference, reference-IsDocumented}
use prismswap_contracts.Querier.{query_pair_info}
use prismswap_contracts.Pair.Swap.{compute_swap, assert_max_spread}
use prismswap_contracts.Pair.Trade.Traded.{Traded}
use prismswap_contracts.Pair.Query.{query_simulation}
use prismswap_contracts.Pair.Query.Agreement.{query_simulation-Traded}
use prismswap_contracts.Router.State.{native_swap, prism_swap, load, Deps}
use prismswap_contracts.Router.Contract.{simulate_swap_operations}
use prismswap_contracts.System.Fees.{swap_fees_limited}
use prismswap_contracts.System.Route.{Hop, hop, exchange, arrived, simulate_swap_operations-Journey}
use prismswap_contracts.Tests.Pool.{
  swap_response, swap_run, load_run, pools_run, fees_run, pools_before, same_fees,
}
use prismswap_contracts.Tests.Register.{at, one_pair, one_pair-Reachable, query_run}
use prismswap_contracts.Tests.{
  alice, collector, pair_info, factory_address, coin_info, token_info, asset_infos, fee_info,
  config, pair_deps, chain, coin, token, with_coins, send_asset,
}

swap_fees_limited_example :
    (t : Traded
      (pair_deps 1001000 2000000 0)
      (with_coins 1000)
      alice
      (coin 1000)
      none
      none
      none
      swap_response)
    × (20 * t.commission_amount ≤ t.return_amount + t.commission_amount)
    × (5 * t.protocol_fee_amount ≤ 4 * t.commission_amount)
swap_fees_limited_example =
    swap_fees_limited (pair_deps 1001000 2000000 0) reference-IsDocumented (at one_pair)
      (with_coins 1000) alice (coin 1000) none none none config one_pair-Reachable load_run
      (fees_run ∙ sym query_run) swap_run

-- The router asks this pair, which answers with its simulation.
abbrev deps : Deps
deps = record {
  arith = reference;
  chain = record (chain 1000000 2000000 0) {
    simulation = λ pair asset.
        ok (record { return_amount = 1993; spread_amount = 2; commission_amount = 5 });
  };
  contract = ascii "router";
  storage = some (record { factory = factory_address });
  query_swap = λ offer ask. ok (offer.amount);
  create_swap_send_msg = λ to offer ask. send_asset coin_info 0 to;
  create_swap_msg = λ offer ask. send_asset coin_info 0 (ascii "router");
  encode = λ msg. ok [];
  decode = λ msg. ok (record { operations = []; minimum_receive = none; to = none });
  asset_text = λ info. [];
  below_minimum_text = λ minimum amount. "assertion failed";
}

computed_run :
    compute_swap reference 1000000 2000000 1000 (fee_info.fee_config.total_fee) ≡ ok (1993, 2, 5)
unfolding compute_swap must ◌>>=◌
computed_run = refl

spread_run : assert_max_spread reference none none 1000 1998 2 ≡ ok tt
unfolding assert_max_spread
spread_run = refl

abbrev traded :
    Traded
      (pair_deps 1001000 2000000 0)
      (with_coins 1000)
      alice
      (coin 1000)
      none
      none
      none
      swap_response
traded = record {
  config = config;
  loaded = load_run;
  pools = (coin 1001000, token 2000000);
  queried = pools_run;
  chosen = (coin 1000000, token 2000000);
  sides = record { offer_info = refl; sides = inl (refl, omega arith, refl) };
  fee_info = fee_info;
  fees = fees_run;
  return_amount = 1993;
  spread_amount = 2;
  commission_amount = 5;
  computed = computed_run;
  within_spread = spread_run;
  protocol_fee_amount = 1;
  protocol_fee = refl;
  payments = (send_asset token_info 1993 alice ∷ [], send_asset token_info 1 collector ∷ []);
  returned = inr (omega arith, send_asset token_info 1993 alice, refl, refl);
  collected = inr (omega arith, send_asset token_info 1 collector, refl, refl);
  sent = refl;
}

simulation_run :
    query_simulation (pair_deps 1000000 2000000 0) (coin 1000)
    ≡ ok (record { return_amount = 1993; spread_amount = 2; commission_amount = 5 })
simulation_run =
    query_simulation-Traded (pair_deps 1001000 2000000 0) (pair_deps 1000000 2000000 0)
      reference-IsDocumented (with_coins 1000) alice (coin 1000) none none none config
      (coin 1000000, token 2000000) (coin 1001000, token 2000000) refl load_run load_run
      pools_before pools_run (inl (refl, refl, omega arith, refl)) same_fees traded

pair_found : query_pair_info deps.chain factory_address asset_infos ≡ ok pair_info
unfolding query_pair_info
pair_found = refl

coins_for_tokens : Hop deps factory_address coin_info token_info 1000 1993
coins_for_tokens = record {
  pair_info = pair_info;
  registered = pair_found;
  pair = pair_deps 1001000 2000000 0;
  documented = reference-IsDocumented;
  earlier = pair_deps 1000000 2000000 0;
  same_arith = refl;
  config = config;
  loaded_before = load_run;
  loaded = load_run;
  before = (coin 1000000, token 2000000);
  queried_before = pools_before;
  pools = (coin 1001000, token 2000000);
  queried = pools_run;
  less = inl (refl, refl, omega arith, refl);
  same_fees = same_fees;
  info = with_coins 1000;
  sender = alice;
  max_spread = none;
  belief_price = none;
  to = none;
  resp = swap_response;
  swapped = swap_run;
  traded = traded;
  returned = refl;
  answered = λ res e. ap ok (ok-injective (sym simulation_run ∙ e));
}

loaded :
    load (some (record { factory = factory_address })) ≡ ok (record { factory = factory_address })
unfolding load
loaded = refl

-- Luna for as many dollars, and these for tokens.
simulate_swap_operations-Journey_example :
    simulate_swap_operations deps 1000
      (native_swap (ascii "uluna") (ascii "uusd") ∷ prism_swap coin_info token_info ∷ [])
    ≡ ok 1993
simulate_swap_operations-Journey_example =
    simulate_swap_operations-Journey deps (record { factory = factory_address }) loaded
      (omega arith) (omega arith) (exchange refl (hop coins_for_tokens arrived))
