-- ===== src/Token.antt =====
-- The token contract: contracts/prismswap_token/src/contract.rs and packages/prismswap/src/token.rs.
-- What it stores besides the token's own item is cw20_base's: the type `S` and the operations on it
-- are parameters.
pub mod Valid
pub mod Stored
pub mod Runs
use prismswap_contracts.Base.{
  ℕ, Bool, true, false, not, ◌&&◌, ◌||◌, ◌==◌, ltb, leb, if◌then◌else◌, Option, none, some, List,
  [], ◌∷◌, ok, Bytes, length, ◌>>=◌, ◌>>◌, ensure,
}
use prismswap_contracts.Asset.{Addr, StdResult, generic_err}
use prismswap_contracts.Messages.{Cw20Coin, MinterResponse, TokenInstantiateMsg}

unfoldable pub is_valid_name : Bytes → Bool
is_valid_name name = not (ltb (length name) 3 || ltb 50 (length name))

-- A byte of a symbol: `-` or a letter.
unfoldable pub is_symbol_byte : ℕ → Bool
is_symbol_byte b = not ((not (b == 45) && (ltb b 65 || ltb 90 b)) && (ltb b 97 || ltb 122 b))

unfoldable pub all_symbol_bytes : Bytes → Bool
all_symbol_bytes [] = true
all_symbol_bytes (b ∷ bs) = is_symbol_byte b && all_symbol_bytes bs

unfoldable pub is_valid_symbol : Bytes → Bool
is_valid_symbol symbol =
    if ltb (length symbol) 3 || ltb 12 (length symbol) then false else all_symbol_bytes symbol

unfoldable pub validate : TokenInstantiateMsg → StdResult (Unit {0})
validate msg = do
  ensure (is_valid_name msg.name)
      (generic_err "Name is not in the expected format (3-50 UTF-8 bytes)")
  ensure (is_valid_symbol msg.symbol)
      (generic_err "Ticker symbol is not in expected format [a-zA-Z\\-]{3,12}")
  ensure (not (ltb 18 msg.decimals)) (generic_err "Decimals must not exceed 18")

unfoldable pub cap_of : Option MinterResponse → Option ℕ
cap_of none = none
cap_of (some m) = m.cap

unfoldable pub get_cap : TokenInstantiateMsg → Option ℕ
get_cap msg = cap_of msg.mint

-- `MinterData` of cw20_base.
pub record MinterData : Type 0 where
  pub minter : Addr
  pub cap : Option ℕ

-- `TokenInfo` of cw20_base: the item that is stored.
pub record TokenData : Type 0 where
  pub name : Bytes
  pub symbol : Bytes
  pub decimals : ℕ
  pub total_supply : ℕ
  pub mint : Option MinterData

-- The check of the supply cap.
unfoldable pub check_cap : Option ℕ → ℕ → StdResult (Unit {0})
check_cap none total_supply = ok tt
check_cap (some limit) total_supply =
    ensure (not (ltb limit total_supply)) (generic_err "Initial supply greater than cap")

unfoldable pub minter_data :
    (Bytes → StdResult Addr) → Option MinterResponse → StdResult (Option MinterData)
minter_data addr_validate none = ok none
minter_data addr_validate (some m) = do
  minter ← addr_validate m.minter
  ok (some (record { minter = minter; cap = m.cap }))

-- The item of the token, and the rest of the storage, afterwards.
unfoldable pub instantiate :
    {S : Type 0} (set_contract_version : S → StdResult S)
    (create_accounts : S → List Cw20Coin → StdResult (S × ℕ))
    (addr_validate : Bytes → StdResult Addr)
    → S
    → TokenInstantiateMsg
    → StdResult (S × TokenData)
instantiate set_contract_version create_accounts addr_validate storage msg = do
  storage ← set_contract_version storage
  validate msg
  created ← create_accounts storage msg.initial_balances
  check_cap (get_cap msg) created.1
  mint ← minter_data addr_validate msg.mint
  ok (
    created.0,
    record {
      name = msg.name;
      symbol = msg.symbol;
      decimals = msg.decimals;
      total_supply = created.1;
      mint = mint;
    },
  )

-- The other entry points, over those of cw20_base: `S` is the storage, `E`, `I` and `M` what a message
-- brings, and `R` the outcome.
unfoldable pub execute : {S E I M R : Type 0} (cw20_execute : S → E → I → M → R) → S → E → I → M → R
execute cw20_execute storage env info msg = cw20_execute storage env info msg

unfoldable pub query : {S E M R : Type 0} (cw20_query : S → E → M → R) → S → E → M → R
query cw20_query storage env msg = cw20_query storage env msg
