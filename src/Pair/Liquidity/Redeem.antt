-- ===== src/Pair/Liquidity/Redeem.antt =====
-- When `withdraw_liquidity` returns a response.
use prismswap_contracts.Base.{
  ℕ, ◌*◌, ◌/◌, ◌≤◌, ◌<◌, ◌≡◌, refl, ◌∙◌, arith, some, [], ◌∷◌, ok, Bytes, must-some, map_err-ok,
  ensure-true, bytes_eq_iff, div-mul-le, le_of_mul-le-mul_right, mul-le-mul_left,
}
use prismswap_contracts.Numbers.{Arith, one, u128, IsDocumented}
use prismswap_contracts.Numbers.Laws.{ratio-some}
use prismswap_contracts.Asset.{Addr, Asset, MessageInfo}
use prismswap_contracts.Messages.{burn, cw20_execute, Payload, CosmosMsg, wasm_execute, Response}
use prismswap_contracts.Querier.{query_pools, query_supply}
use prismswap_contracts.Pair.State.{Config, Deps}
use prismswap_contracts.Pair.Liquidity.{withdraw_liquidity}
use prismswap_contracts.Pair.Liquidity.Shares.{refund}

ratio-le_one : (share total : ℕ) → 0 < total → share ≤ total → share * one / total ≤ one
ratio-le_one share total pos le =
    le_of_mul-le-mul_right {k = total}
      (omega (arith, div-mul-le (share * one) total pos, mul-le-mul_left one le)) pos

-- The sizes at which the two products of a withdrawal fit.
pub record FitsRefund (m : Arith) (pool share total : ℕ) : Type 0 where
  pub total_pos : 0 < total
  pub owned : share ≤ total
  pub share_fits : share * one < m.ratio_limit
  pub pool_fits : pool < u128
  pub product_fits : pool * one < m.ratio_limit

module _ (m : Arith) (doc : IsDocumented m) (pool share total : ℕ)
    (z : FitsRefund m pool share total) where
  open z use {total_pos, owned, share_fits, pool_fits, product_fits}
  open doc use {multiply_ratio_law, mul_decimal_law, decimal_from_ratio_law}

  ratio_le : share * one / total ≤ one
  ratio_le = ratio-le_one share total total_pos owned

  ratio_eq : m.decimal_from_ratio share total ≡ some (share * one / total)
  ratio_eq =
      decimal_from_ratio_law share total
      ∙ multiply_ratio_law share one total
      ∙ ratio-some m.ratio_limit (share * one) total total_pos share_fits (omega (arith, ratio_le))

  product_le : pool * (share * one / total) ≤ pool * one
  product_le = mul-le-mul_left pool ratio_le

  refund_eq : m.mul_decimal pool (share * one / total) ≡ some (refund pool share total)
  refund_eq =
      mul_decimal_law pool (share * one / total)
      ∙ multiply_ratio_law pool (share * one / total) one
      ∙ ratio-some m.ratio_limit (pool * (share * one / total)) one (omega arith)
          (omega (arith, product_le, product_fits))
          (omega (
            arith,
            product_le,
            pool_fits,
            div-mul-le (pool * (share * one / total)) one (omega arith),
          ))

-- Shares can be withdrawn. Where they come from the share token, are no more than there are, and the
-- sizes fit, and where the queries answer and the messages can be encoded, the response pays both
-- refunds to the holder and burns the shares.
pub withdraw_liquidity_answered :
    (deps : Deps) (doc : IsDocumented deps.arith) (info : MessageInfo) (sender : Addr) (share : ℕ)
    (config : Config) (pools : Asset × Asset) (total : ℕ) (transfer : Asset → Addr → CosmosMsg)
    (encode : Payload → Bytes)
    → deps.storage ≡ some config
    → info.sender ≡ config.pair_info.liquidity_token
    → query_pools deps.chain config.pair_info deps.contract ≡ ok pools
    → query_supply deps.chain config.pair_info.liquidity_token ≡ ok total
    → FitsRefund deps.arith pools.0.amount share total
    → FitsRefund deps.arith pools.1.amount share total
    → ((asset : Asset) (to : Addr) → deps.chain.transfer_msg asset to ≡ ok (transfer asset to))
    → ((msg : Payload) → deps.chain.to_binary msg ≡ ok (encode msg))
    → (resp : Response) × (withdraw_liquidity deps info sender share ≡ ok resp)
      × (resp.messages
          ≡ transfer
              (record { info = pools.0.info; amount = refund pools.0.amount share total })
              sender
            ∷ transfer
                (record { info = pools.1.info; amount = refund pools.1.amount share total })
                sender
            ∷ wasm_execute config.pair_info.liquidity_token (encode (cw20_execute (burn share))) []
            ∷ [])
unfolding withdraw_liquidity
withdraw_liquidity_answered deps doc info sender share config pools total transfer encode stored
      authorized queried supply z_0 z_1 transfers encodes =
    (
      _,
      must-some _ stored
          ∙ ensure-true _ _ ((bytes_eq_iff _ _).1 authorized)
          ∙ map_err-ok _ _ queried
          ∙ map_err-ok _ _ supply
          ∙ must-some _ (ratio_eq deps.arith doc _ share total z_0)
          ∙ must-some _ (refund_eq deps.arith doc _ share total z_0)
          ∙ must-some _ (refund_eq deps.arith doc _ share total z_1)
          ∙ map_err-ok _ _ (transfers _ sender)
          ∙ map_err-ok _ _ (transfers _ sender)
          ∙ map_err-ok _ _ (encodes _),
      refl,
    )
