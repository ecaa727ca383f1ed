-- ===== src/Token/Stored.antt =====
-- What a token that was instantiated has stored.
use prismswap_contracts.Base.{
  ℕ, ◌≤◌, ◌≡◌, subst, arith, true, Option, none, some, List, ok, Bytes, length, >>=-elim,
  ensure-elim, ensure-eq-ok, ok-injective,
}
use prismswap_contracts.Asset.{Addr, StdResult}
use prismswap_contracts.Messages.{Cw20Coin, TokenInstantiateMsg}
use prismswap_contracts.Token.{
  is_valid_name, is_valid_symbol, validate, get_cap, check_cap, TokenData, instantiate,
}

-- The limits on a token that is stored, with the cap that was asked for.
pub record IsToken (cap : Option ℕ) (t : TokenData) : Type 0 where
  pub name_low : 3 ≤ length t.name
  pub name_high : length t.name ≤ 50
  pub symbol_low : 3 ≤ length t.symbol
  pub symbol_high : length t.symbol ≤ 12
  pub decimals_high : t.decimals ≤ 18
  pub capped : (limit : ℕ) → cap ≡ some limit → t.total_supply ≤ limit

name_bounds : (n : Bytes) → is_valid_name n ≡ true → (3 ≤ length n) × (length n ≤ 50)
unfolding is_valid_name
name_bounds n h = ground arith

symbol_bounds : (n : Bytes) → is_valid_symbol n ≡ true → (3 ≤ length n) × (length n ≤ 12)
unfolding is_valid_symbol
symbol_bounds n h = ground arith

check_cap-eq-ok :
    (cap : Option ℕ) (supply limit : ℕ) {u : Unit {0}}
    → check_cap cap supply ≡ ok u
    → cap ≡ some limit
    → supply ≤ limit
unfolding check_cap
check_cap-eq-ok none supply limit h e = absurd (cc)
check_cap-eq-ok (some l) supply limit h e =
    let same : l ≡ limit = cc in let within = ensure-eq-ok _ _ h in ground arith

-- A token that is instantiated has a name of 3 to 50 bytes, a symbol of 3 to 12, at most 18 decimals,
-- and a supply within the cap of the message, whatever the accounts that are created.
pub instantiate-IsToken :
    {S : Type 0} (set_contract_version : S → StdResult S)
    (create_accounts : S → List Cw20Coin → StdResult (S × ℕ))
    (addr_validate : Bytes → StdResult Addr) (storage : S) (msg : TokenInstantiateMsg)
    {result : S × TokenData}
    → instantiate set_contract_version create_accounts addr_validate storage msg ≡ ok result
    → IsToken (get_cap msg) result.1
unfolding instantiate validate
instantiate-IsToken {S} set_contract_version create_accounts addr_validate storage msg {result} h =
    >>=-elim _ _ h λ versioned e0 h. >>=-elim _ _ h λ valid e1 h. >>=-elim _ _ h λ created e2 h.
      >>=-elim _ _ h λ capped e3 h. >>=-elim _ _ h λ mint e4 h. ensure-elim _ _ _ e1 λ name_ok e1.
        ensure-elim _ _ _ e1 λ symbol_ok e1.
          let decimals_ok = ensure-eq-ok _ _ e1 in
          let (name_low, name_high) = name_bounds msg.name name_ok in
          let (symbol_low, symbol_high) = symbol_bounds msg.symbol symbol_ok in
          subst (λ (r : S × TokenData). IsToken (get_cap msg) r.1) (ok-injective h)
            (record {
              name_low = name_low;
              name_high = name_high;
              symbol_low = symbol_low;
              symbol_high = symbol_high;
              decimals_high = ground arith;
              capped = λ limit e. check_cap-eq-ok (get_cap msg) created.1 limit e3 e;
            })
