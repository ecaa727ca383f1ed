-- ===== src/Tests/Route.antt =====
-- The router on a chain of two operations.
use prismswap_contracts.Base.{
  ℕ, ◌≡◌, refl, ap, none, some, List, [], ◌∷◌, ok, arith, Bytes, ascii, bytes_eq, ◌>>=◌, must,
  ensure, unwrap_or,
}
use prismswap_contracts.Numbers.Reference.{reference}
use prismswap_contracts.Asset.{Addr, AssetInfo, cw20, native}
use prismswap_contracts.Messages.{wasm_execute, bank_send, Response}
use prismswap_contracts.Querier.{query_pool, query_balance}
use prismswap_contracts.Router.State.{
  SwapOperation, native_swap, prism_swap, get_target_asset_info, RouterExecuteMsg, receive,
  swap_operations, swap_operation, assert_minimum, Deps, send_all,
}
use prismswap_contracts.Router.Contract.{
  offered, remove_key, insert_key, ask_assets, assert_operations, last, operation_messages,
  minimum_message, execute_swap_operations,
}
use prismswap_contracts.Router.Contract.Outputs.{IsOutput, outputs_are_target}
use prismswap_contracts.Tests.{alice, factory_address, coin_info, token_info, chain}

abbrev encode : RouterExecuteMsg → Bytes
encode (receive msg) = 114 ∷ []
encode (swap_operations operations minimum_receive to) = 115 ∷ []
encode (swap_operation operation none) = 111 ∷ []
encode (swap_operation operation (some to)) = 112 ∷ []
encode (assert_minimum asset_info prev_balance minimum_receive receiver) = 109 ∷ prev_balance ∷ []

-- A letter for the kind, and the name.
abbrev asset_text : AssetInfo → Bytes
asset_text (cw20 a) = 99 ∷ a
asset_text (native d) = 110 ∷ d

abbrev router : Addr
router = ascii "router"

abbrev pub deps : Deps
deps = record {
  arith = reference;
  chain = chain 40 0 0;
  contract = router;
  storage = some (record { factory = factory_address });
  query_swap = λ offer ask. ok (offer.amount);
  create_swap_send_msg = λ to offer ask. bank_send to (offer ∷ []);
  create_swap_msg = λ offer ask. bank_send router (offer ∷ []);
  encode = λ msg. ok (encode msg);
  decode = λ msg. ok (record { operations = []; minimum_receive = none; to = none });
  asset_text = asset_text;
  below_minimum_text = λ minimum amount. "assertion failed";
}

-- Luna for dollars, dollars for the token, the token for dollars.
abbrev operations : List SwapOperation
operations =
    native_swap (ascii "uluna") (ascii "uusd")
    ∷ prism_swap coin_info token_info
    ∷ prism_swap token_info coin_info
    ∷ []

abbrev response : Response
response = send_all (
    wasm_execute router (111 ∷ []) []
    ∷ wasm_execute router (111 ∷ []) []
    ∷ wasm_execute router (112 ∷ []) []
    ∷ wasm_execute router (109 ∷ 40 ∷ []) []
    ∷ [])

route_run : execute_swap_operations deps alice operations (some 5) none ≡ ok response
unfolding execute_swap_operations assert_operations ask_assets insert_key remove_key bytes_eq
    offered get_target_asset_info last operation_messages minimum_message query_pool query_balance
    ◌>>=◌ must ensure unwrap_or
route_run = refl

abbrev first_byte : Bytes → ℕ
first_byte [] = 0
first_byte (b ∷ bs) = b

asset_text-injective : (a b : AssetInfo) → asset_text a ≡ asset_text b → a ≡ b
asset_text-injective (cw20 a) (cw20 b) h = cc
asset_text-injective (native a) (native b) h = cc
asset_text-injective (cw20 a) (native b) h = absurd (omega (arith, ap first_byte h))
asset_text-injective (native a) (cw20 b) h = absurd (omega (arith, ap first_byte h))

outputs_are_target_example :
    (last_operation : SwapOperation) × (last operations ≡ some last_operation)
    × IsOutput (get_target_asset_info last_operation) operations
    × ((a : AssetInfo) → IsOutput a operations → a ≡ get_target_asset_info last_operation)
outputs_are_target_example =
    outputs_are_target deps asset_text-injective alice operations (some 5) none route_run

balance_run : query_pool deps.chain coin_info alice ≡ ok 40
unfolding query_pool query_balance
balance_run = refl
