-- ===== src/Pair/Contract/Authority.antt =====
-- Who can make the pair do what, through `execute`.
use prismswap_contracts.Base.{
  ℕ, ◌≡◌, refl, ap, Bool, true, false, ◌||◌, ◌⊎◌, inl, inr, Option, ok, bytes_eq_iff, >>=-elim,
  map_err-elim, ensure-elim,
}
use prismswap_contracts.Numbers.{IsDocumented}
use prismswap_contracts.Asset.{Addr, AssetInfo, cw20, native, MessageInfo}
use prismswap_contracts.Messages.{
  Cw20ReceiveMsg, receive, PairHookMsg, hook_swap, withdraw_liquidity as withdraw_liquidity_msg,
  Response,
}
use prismswap_contracts.Pair.Liquidity.{withdraw_liquidity}
use prismswap_contracts.Pair.Liquidity.Withdraw.{withdraw_liquidity-Withdrawn}
use prismswap_contracts.Pair.State.{Config, load, load-some, Deps}
use prismswap_contracts.Pair.Trade.{swap}
use prismswap_contracts.Pair.Contract.{execute, receive_cw20, hook, is_token}

is_token-eq : (i : AssetInfo) (sender : Addr) → is_token i sender ≡ true → i ≡ cw20 sender
unfolding is_token
is_token-eq (cw20 contract_addr) sender h = ap cw20 ((bytes_eq_iff contract_addr sender).0 h)
is_token-eq (native denom) sender h = cc

or-cases : (a b : Bool) → (a || b) ≡ true → (a ≡ true) ⊎ (b ≡ true)
or-cases true b h = inl refl
or-cases false b h = inr h

-- What a token contract may have the pair do: swap the token itself, if it is one of the pair's, or
-- withdraw, if it is the share token. The amount is the one that the token reports, and the trader
-- the account that it names.
abbrev pub Received : Deps → MessageInfo → Cw20ReceiveMsg → Response → Type 0
Received deps info msg resp =
    (config : Config) × (load deps.storage ≡ ok config)
    × (((belief_price : Option ℕ) × (max_spread : Option ℕ) × (to : Option Addr)
          × ((config.pair_info.asset_infos.0 ≡ cw20 info.sender)
              ⊎ (config.pair_info.asset_infos.1 ≡ cw20 info.sender))
          × (swap deps info msg.sender (record { info = cw20 info.sender; amount = msg.amount })
                belief_price max_spread to
              ≡ ok resp))
        ⊎ ((info.sender ≡ config.pair_info.liquidity_token)
            × (withdraw_liquidity deps info msg.sender msg.amount ≡ ok resp)))

-- Where the pair executes a message of a token contract, that contract is one of its own tokens and
-- its own amount is swapped, or it is the share token and its shares are withdrawn.
pub execute_receive :
    (deps : Deps) (doc : IsDocumented deps.arith) (info : MessageInfo) (msg : Cw20ReceiveMsg)
    {resp : Response}
    → execute deps info (receive msg) ≡ ok resp
    → Received deps info msg resp
unfolding execute receive_cw20 hook
execute_receive deps doc info msg {resp} h = map_err-elim _ _ _ h λ m e h. split m h
  where
    side :
        (config : Config)
        → (is_token config.pair_info.asset_infos.0 info.sender
            || is_token config.pair_info.asset_infos.1 info.sender)
          ≡ true
        → (config.pair_info.asset_infos.0 ≡ cw20 info.sender)
          ⊎ (config.pair_info.asset_infos.1 ≡ cw20 info.sender)
    side config token = elim (or-cases _ _ token) [
      | inl a ↦ inl (is_token-eq _ _ a)
      | inr b ↦ inr (is_token-eq _ _ b)
    ]

    split : (m : PairHookMsg) → hook deps info msg m ≡ ok resp → Received deps info msg resp
    split (hook_swap belief_price max_spread to) h = >>=-elim _ _ h λ config e0 h.
        ensure-elim _ _ _ h λ token h. >>=-elim _ _ h λ to_addr e1 h.
          (config, e0, inl (belief_price, max_spread, to_addr, side config token, h))
    split withdraw_liquidity_msg h =
        let w = withdraw_liquidity-Withdrawn deps doc info msg.sender msg.amount h in
        (w.config, load-some w.loaded, inr (w.authorized, h))
