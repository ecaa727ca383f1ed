-- ===== src/Factory/Execute/Again.antt =====
-- A pair that is taken out of the register and created again: `deregister` and `create_pair` of
-- contracts/prismswap_factory/src/contract.rs.
use prismswap_contracts.Base.{
  ◌≡◌, ◌≢◌, sym, ◌∙◌, ap, Option, some, none, ok, Bytes, >>=-elim, ok_or-elim, ensure-elim,
  ok-injective, unwrap_or,
}
use prismswap_contracts.Asset.{AssetInfo, MessageInfo}
use prismswap_contracts.Messages.{FeeConfig, Payload, Response}
use prismswap_contracts.Factory.Fees.{IsValid, default_fees}
use prismswap_contracts.Factory.Pairs.{lookup, pair_key}
use prismswap_contracts.Factory.Pairs.Key.{pair_key_symm}
use prismswap_contracts.Factory.State.{current, Storage, Deps}
use prismswap_contracts.Factory.Execute.{
  create_pair, deregister, execute, execute_deregister, check_both,
}
use prismswap_contracts.Factory.Execute.Owner.{execute_owner}
use prismswap_contracts.Factory.Execute.Register.{create_pair-pending, deregister_removes}
use prismswap_contracts.Factory.Execute.Creates.{create_pair_iff}

deregister-config :
    (deps : Deps) (info : MessageInfo) (infos : AssetInfo × AssetInfo) {result : Response × Storage}
    → execute deps info (deregister infos) ≡ ok result
    → result.1.config ≡ deps.storage.config
unfolding execute execute_deregister
deregister-config deps info infos h = >>=-elim _ _ h λ checked e h. >>=-elim _ _ h λ config e0 h.
    ensure-elim _ _ _ h λ owner h.
      ok_or-elim _ _ _ h
        λ old e1 h. ap (λ (r : Response × Storage). r.1.config) (sym (ok-injective h))

-- A pair stands once in the register, and can come again. Where the owner takes a pair out, it could
-- not have been created before, with its assets in the other order and any fees; and in the storage
-- that this leaves the same owner can create it, in the other order, with any fees within the limits,
-- where the addresses pass their check and messages can be encoded.
pub deregister_makes_room :
    (deps deps' : Deps) (info : MessageInfo) (a b : AssetInfo) (fees : Option FeeConfig)
    (encode : Payload → Bytes) {removed : Response × Storage}
    → execute deps info (deregister (a, b)) ≡ ok removed
    → deps'.storage ≡ removed.1
    → check_both deps'.chain (b, a) ≡ ok tt
    → ((msg : Payload) → deps'.chain.to_binary msg ≡ ok (encode msg))
    → IsValid (unwrap_or fees default_fees)
    → ((result : Response × Storage) → execute deps info (create_pair (b, a) fees) ≢ ok result)
      × ((created : Response × Storage) × (execute deps' info (create_pair (b, a) fees)
            ≡ ok created))
deregister_makes_room deps deps' info a b fees encode {removed} h same checked encoded valid =
    let (old, there, free, _) = deregister_removes deps info a b h in
    let (config, stored, owner) = execute_owner deps info (deregister (a, b)) h in
    let stored' : deps'.storage.config ≡ current config =
      ap (λ (s : Storage). s.config) same ∙ deregister-config deps info (a, b) h ∙ stored in
    let free' : lookup (pair_key (b, a)) deps'.storage.pairs ≡ none =
      ap (λ (s : Storage). lookup (pair_key (b, a)) s.pairs) same ∙ free in
    (
      λ result again.
          let (empty, _, _) = create_pair-pending deps info (b, a) fees again in
          let found : lookup (pair_key (b, a)) deps.storage.pairs ≡ some old =
            rw (pair_key_symm b a) there in
          absurd (cc (empty, found)),
      (create_pair_iff deps' config stored' info (b, a) fees encode checked encoded).1
          (owner, valid, free'),
    )
