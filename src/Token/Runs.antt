-- ===== src/Token/Runs.antt =====
-- When `instantiate` of contracts/prismswap_token/src/contract.rs succeeds.
use prismswap_contracts.Base.{ℕ, ◌≡◌, ◌∙◌, some, none, List, ok, Bytes, bind-ok, Option}
use prismswap_contracts.Asset.{Addr, StdResult}
use prismswap_contracts.Messages.{Cw20Coin, MinterResponse, TokenInstantiateMsg}
use prismswap_contracts.Token.{validate, get_cap, cap_of, check_cap, minter_data, instantiate}

-- A minter without a cap.
abbrev pub uncapped : Bytes → Option MinterResponse
uncapped minter = some (record { minter = minter; cap = none })

check_cap-uncapped :
    (msg : TokenInstantiateMsg) (minter : Bytes) (supply : ℕ)
    → msg.mint ≡ uncapped minter
    → check_cap (get_cap msg) supply ≡ ok tt
unfolding check_cap get_cap cap_of
check_cap-uncapped msg minter supply e = rw e

minter_data-uncapped :
    (addr_validate : Bytes → StdResult Addr) (msg : TokenInstantiateMsg) (minter : Bytes)
    → msg.mint ≡ uncapped minter
    → addr_validate minter ≡ ok minter
    → minter_data addr_validate msg.mint ≡ ok (some (record { minter = minter; cap = none }))
unfolding minter_data
minter_data-uncapped addr_validate msg minter e v = rw e (bind-ok _ v)

-- A token that passes the validation, with a minter at a valid address and no cap, is instantiated.
pub instantiate_runs :
    {S : Type 0} (set_contract_version : S → StdResult S)
    (create_accounts : S → List Cw20Coin → StdResult (S × ℕ))
    (addr_validate : Bytes → StdResult Addr) (s s' : S) (msg : TokenInstantiateMsg) (minter : Bytes)
    {created : S × ℕ}
    → set_contract_version s ≡ ok s'
    → validate msg ≡ ok tt
    → create_accounts s' msg.initial_balances ≡ ok created
    → msg.mint ≡ uncapped minter
    → addr_validate minter ≡ ok minter
    → instantiate set_contract_version create_accounts addr_validate s msg
      ≡ ok (
        created.0,
        record {
          name = msg.name;
          symbol = msg.symbol;
          decimals = msg.decimals;
          total_supply = created.1;
          mint = some (record { minter = minter; cap = none });
        },
      )
unfolding instantiate
instantiate_runs set_contract_version create_accounts addr_validate s s' msg minter {created} e0
      valid e1 minted known =
    bind-ok _ e0
    ∙ bind-ok _ valid
    ∙ bind-ok _ e1
    ∙ bind-ok _ (check_cap-uncapped msg minter created.1 minted)
    ∙ bind-ok _ (minter_data-uncapped addr_validate msg minter minted known)
