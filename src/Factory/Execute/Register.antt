-- ===== src/Factory/Execute/Register.antt =====
-- How a pair enters the register, changes and leaves it.
use prismswap_contracts.Base.{
  ◌≡◌, refl, sym, ◌∙◌, ap, true, Option, some, none, ok, Bytes, String, bytes_eq, if◌then◌else◌,
  >>=-elim, ok_or-elim, map_err-elim, ensure-elim, ok-injective, unwrap_or,
}
use prismswap_contracts.Asset.{AssetInfo, Addr, MessageInfo}
use prismswap_contracts.Messages.{FeeConfig, Response}
use prismswap_contracts.ParseReply.{ParseReplyError, ReplyResult}
use prismswap_contracts.Factory.Fees.{default_fees}
use prismswap_contracts.Factory.Pairs.{PairConfig, lookup, save, pair_key}
use prismswap_contracts.Factory.Pairs.Key.{pair_key_symm}
use prismswap_contracts.Factory.Pairs.Map.{
  lookup-save, lookup-save_self, lookup-remove, lookup-remove_self,
}
use prismswap_contracts.Factory.State.{TmpPairInfo, Storage, Deps}
use prismswap_contracts.Factory.Execute.{
  update_pair_config, create_pair, deregister, execute, execute_create_pair,
  execute_update_pair_config, execute_deregister, is_free, reply,
}

pub is_free-none : (o : Option PairConfig) → is_free o ≡ true → o ≡ none
unfolding is_free
is_free-none none h = refl
is_free-none (some p) h = cc

pub pending : AssetInfo × AssetInfo → Option FeeConfig → TmpPairInfo
pending asset_infos fees = record {
  pair_key = pair_key asset_infos;
  fee_config = unwrap_or fees default_fees;
}

pub create_pair-pending :
    (deps : Deps) (info : MessageInfo) (asset_infos : AssetInfo × AssetInfo)
    (fees : Option FeeConfig) {created : Response × Storage}
    → execute deps info (create_pair asset_infos fees) ≡ ok created
    → (lookup (pair_key asset_infos) deps.storage.pairs ≡ none)
      × (created.1.pairs ≡ deps.storage.pairs)
      × (created.1.tmp_pair_info ≡ some (pending asset_infos fees))
unfolding execute execute_create_pair pending
create_pair-pending deps info asset_infos fees h = >>=-elim _ _ h λ checked e h.
    >>=-elim _ _ h λ config e0 h. ensure-elim _ _ _ h λ owner h. ensure-elim _ _ _ h λ valid h.
      ensure-elim _ _ _ h λ free h. >>=-elim _ _ h λ encoded e1 h.
        let made = ap (λ (r : Response × Storage). r.1) (sym (ok-injective h)) in
        (
          is_free-none _ free,
          ap (λ (s : Storage). s.pairs) made,
          ap (λ (s : Storage). s.tmp_pair_info) made,
        )

reply-saves :
    (describe : ParseReplyError → String) (deps : Deps) (msg : ReplyResult)
    {answered : Response × Storage}
    → reply describe deps msg ≡ ok answered
    → (tmp : TmpPairInfo) × (address : Addr) × (deps.storage.tmp_pair_info ≡ some tmp)
      × (answered.1.pairs
          ≡ save tmp.pair_key
              (record { pair_address = address; fee_config = tmp.fee_config })
              deps.storage.pairs)
unfolding reply
reply-saves describe deps msg h = ok_or-elim _ _ _ h λ tmp e0 h. map_err-elim _ _ _ h λ res e1 h.
    >>=-elim _ _ h λ address e2 h.
      (tmp, address, e0, ap (λ (r : Response × Storage). r.1.pairs) (sym (ok-injective h)))

-- A creation that is answered puts a pair in the register that was not there: under the key of its
-- assets stand the address that was validated and the fees that were given, or the default ones. No
-- other entry changes, and the creation itself changes none.
pub create_pair-reply :
    (deps deps' : Deps) (info : MessageInfo) (asset_infos : AssetInfo × AssetInfo)
    (fees : Option FeeConfig) (describe : ParseReplyError → String) (msg : ReplyResult)
    {created answered : Response × Storage}
    → execute deps info (create_pair asset_infos fees) ≡ ok created
    → deps'.storage ≡ created.1
    → reply describe deps' msg ≡ ok answered
    → (lookup (pair_key asset_infos) deps.storage.pairs ≡ none)
      × (created.1.pairs ≡ deps.storage.pairs)
      × (address : Addr) × ((key : Bytes)
          → lookup key answered.1.pairs ≡ (
              if bytes_eq (pair_key asset_infos) key
              then some
                  (record { pair_address = address; fee_config = unwrap_or fees default_fees })
              else lookup key deps.storage.pairs))
unfolding pending
create_pair-reply deps deps' info asset_infos fees describe msg {created} {answered} h same h' =
    let (free, kept, stored) = create_pair-pending deps info asset_infos fees h in
    let (tmp, address, found, saved) = reply-saves describe deps' msg h' in
    let tmp-eq : tmp ≡ pending asset_infos fees =
      cc (found, stored, ap (λ (s : Storage). s.tmp_pair_info) same) in
    let pairs-eq : deps'.storage.pairs ≡ deps.storage.pairs =
      ap (λ (s : Storage). s.pairs) same ∙ kept in
    (
      free,
      kept,
      address,
      λ key.
          rw (saved, tmp-eq, pairs-eq)
            (lookup-save (pair_key asset_infos) key _ deps.storage.pairs),
    )

-- The owner's change of the fees of a pair changes them and nothing else in the register, under the
-- assets in either order; the pair must be there.
pub update_pair_config_changes :
    (deps : Deps) (info : MessageInfo) (a b : AssetInfo) (fees : FeeConfig)
    {result : Response × Storage}
    → execute deps info (update_pair_config (a, b) fees) ≡ ok result
    → (old : PairConfig) × (lookup (pair_key (b, a)) deps.storage.pairs ≡ some old)
      × (lookup (pair_key (b, a)) result.1.pairs
          ≡ some (record { pair_address = old.pair_address; fee_config = fees }))
      × ((key : Bytes)
          → lookup key result.1.pairs ≡ (
              if bytes_eq (pair_key (a, b)) key
              then some (record { pair_address = old.pair_address; fee_config = fees })
              else lookup key deps.storage.pairs))
unfolding execute execute_update_pair_config
update_pair_config_changes deps info a b fees h = >>=-elim _ _ h λ checked e h.
    >>=-elim _ _ h λ config e0 h. ensure-elim _ _ _ h λ owner h. ensure-elim _ _ _ h λ valid h.
      ok_or-elim _ _ _ h λ old e1 h.
        let pairs-eq = ap (λ (r : Response × Storage). r.1.pairs) (sym (ok-injective h)) in
        (
          old,
          rw (pair_key_symm b a) e1,
          rw (pairs-eq, pair_key_symm b a)
              (lookup-save_self (pair_key (a, b)) _ deps.storage.pairs),
          λ key. rw pairs-eq (lookup-save (pair_key (a, b)) key _ deps.storage.pairs),
        )

-- A pair that is removed from the register was there; afterwards its key is free, under the assets in
-- either order, and every other key is as before.
pub deregister_removes :
    (deps : Deps) (info : MessageInfo) (a b : AssetInfo) {result : Response × Storage}
    → execute deps info (deregister (a, b)) ≡ ok result
    → (old : PairConfig) × (lookup (pair_key (a, b)) deps.storage.pairs ≡ some old)
      × (lookup (pair_key (b, a)) result.1.pairs ≡ none)
      × ((key : Bytes)
          → lookup key result.1.pairs
            ≡ (if bytes_eq (pair_key (a, b)) key then none else lookup key deps.storage.pairs))
unfolding execute execute_deregister
deregister_removes deps info a b h = >>=-elim _ _ h λ checked e h. >>=-elim _ _ h λ config e0 h.
    ensure-elim _ _ _ h λ owner h. ok_or-elim _ _ _ h λ old e1 h.
      let pairs-eq = ap (λ (r : Response × Storage). r.1.pairs) (sym (ok-injective h)) in
      (
        old,
        e1,
        rw (pairs-eq, pair_key_symm b a) (lookup-remove_self (pair_key (a, b)) deps.storage.pairs),
        λ key. rw pairs-eq (lookup-remove (pair_key (a, b)) key deps.storage.pairs),
      )
