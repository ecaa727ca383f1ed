-- ===== src/Pair/Contract/Lifecycle.antt =====
-- The stored item from `instantiate` to the reply that brings the address of the share token.
use prismswap_contracts.Base.{
  ◌≡◌, ◌≢◌, refl, sym, ◌∙◌, ap, false, some, ok, err, [], Bytes, Bool-cases, bytes_eq, bytes_eq_iff,
  inl, inr, >>=-elim, map_err-elim, ensure-elim, bind-ok, ensure-false, ok-injective,
}
use prismswap_contracts.Asset.{asset_eq_iff}
use prismswap_contracts.Messages.{PairInstantiateMsg, Response}
use prismswap_contracts.ParseReply.{ReplyResult}
use prismswap_contracts.Pair.Error.{unauthorized}
use prismswap_contracts.Pair.State.{Config, Storage, load, Deps}
use prismswap_contracts.Pair.Contract.{instantiate, reply}

-- A pair that was instantiated has two different assets, its own address, and no share token yet.
pub instantiate_stores :
    (deps : Deps) (msg : PairInstantiateMsg) {result : Response × Storage}
    → instantiate deps msg ≡ ok result
    → (config : Config) × (result.1 ≡ some config)
      × (config.pair_info.asset_infos ≡ msg.asset_infos)
      × (msg.asset_infos.0 ≢ msg.asset_infos.1)
      × (config.pair_info.contract_addr ≡ deps.contract)
      × (config.pair_info.liquidity_token ≡ [])
      × (config.factory ≡ msg.factory)
unfolding instantiate
instantiate_stores deps msg h = map_err-elim _ _ _ h λ u e0 h. map_err-elim _ _ _ h λ v e1 h.
    ensure-elim _ _ _ h λ differ h. >>=-elim _ _ h λ name e2 h. map_err-elim _ _ _ h λ token e3 h. (
      _,
      ap (λ r. r.1) (sym (ok-injective h)),
      refl,
      λ same. cc (differ, (asset_eq_iff msg.asset_infos.0 msg.asset_infos.1).1 same),
      refl,
      refl,
      refl,
    )

-- A reply is taken only while the share token is not known. It stores the validated address that the
-- answer names, and changes nothing else.
pub reply_stores :
    (deps : Deps) (msg : ReplyResult) {result : Response × Storage}
    → reply deps msg ≡ ok result
    → (config : Config) × (config' : Config) × (load deps.storage ≡ ok config)
      × (config.pair_info.liquidity_token ≡ [])
      × (result.1 ≡ some config')
      × (config'.pair_info.asset_infos ≡ config.pair_info.asset_infos)
      × (config'.pair_info.contract_addr ≡ config.pair_info.contract_addr)
      × (config'.factory ≡ config.factory)
      × (answer : Bytes) × (deps.chain.addr_validate answer ≡ ok config'.pair_info.liquidity_token)
unfolding reply
reply_stores deps msg h = >>=-elim _ _ h λ config e0 h. ensure-elim _ _ _ h λ empty h.
    map_err-elim _ _ _ h λ res e1 h. map_err-elim _ _ _ h λ token e2 h. (
      config,
      _,
      e0,
      (bytes_eq_iff _ _).0 empty,
      ap (λ r. r.1) (sym (ok-injective h)),
      refl,
      refl,
      refl,
      res.contract_address,
      e2,
    )

-- Once the share token is known no reply is taken: its address can never be replaced.
pub reply_refused :
    (deps : Deps) (config : Config) (msg : ReplyResult)
    → load deps.storage ≡ ok config
    → config.pair_info.liquidity_token ≢ []
    → reply deps msg ≡ err unauthorized
unfolding reply
reply_refused deps config msg loaded known =
    bind-ok _ loaded ∙ ensure-false _ _ (unequal config.pair_info.liquidity_token known)
  where
    unequal : (t : Bytes) → t ≢ [] → bytes_eq t [] ≡ false
    unequal t ne = elim (Bool-cases (bytes_eq t [])) [
      | inl same ↦ absurd (ne ((bytes_eq_iff t []).0 same))
      | inr other ↦ other
    ]
