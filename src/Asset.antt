-- ===== src/Asset.antt =====
-- Assets: `AssetInfo` and `Asset` of cw_asset, as far as the contracts use them, and the types and
-- methods of packages/prismswap/src/asset.rs that read no other contract.
use prismswap_contracts.Base.{
  ℕ, ◌≡◌, ◌≢◌, ◌↔◌, refl, sym, Bool-cases, inl, inr, ap, String, Bool, true, false, Option, none,
  some, List, [], ◌∷◌, ◌++◌, Outcome, ok, err, ◌==◌, if◌then◌else◌, Bytes, bytes_eq, bytes_eq_iff,
}

-- An address is the text that it is.
abbrev pub Addr : Type 0
Addr = Bytes

-- `generic_err` carries its message; `overflow` is the error of a checked operation; `other` is
-- one that a library or another contract returns.
pub data StdError : Type 0 where
  generic_err : String → StdError
  overflow : StdError
  not_found parse_err : StdError
  other : Bytes → StdError

abbrev pub StdResult : Type 0 → Type 0
StdResult A = Outcome StdError A

pub data AssetInfo : Type 0 where
  cw20 : Addr → AssetInfo
  native : Bytes → AssetInfo

pub record Asset : Type 0 where
  pub info : AssetInfo
  pub amount : ℕ

pub record Coin : Type 0 where
  pub denom : Bytes
  pub amount : ℕ

-- `MessageInfo`: who sent the message, and the coins that came with it.
pub record MessageInfo : Type 0 where
  pub sender : Addr
  pub funds : List Coin

pub record PairInfo : Type 0 where
  pub asset_infos : AssetInfo × AssetInfo
  pub contract_addr : Addr
  pub liquidity_token : Addr

-- The derived `==` of `AssetInfo`.
unfoldable pub asset_eq : AssetInfo → AssetInfo → Bool
asset_eq (cw20 a) (cw20 b) = bytes_eq a b
asset_eq (native a) (native b) = bytes_eq a b
asset_eq (cw20 a) (native b) = false
asset_eq (native a) (cw20 b) = false

pub asset_eq_iff : (a b : AssetInfo) → (asset_eq a b ≡ true) ↔ (a ≡ b)
unfolding asset_eq
asset_eq_iff (cw20 a) (cw20 b) =
    (λ h. ap cw20 ((bytes_eq_iff a b).0 h), λ e. (bytes_eq_iff a b).1 (cc))
asset_eq_iff (native a) (native b) =
    (λ h. ap native ((bytes_eq_iff a b).0 h), λ e. (bytes_eq_iff a b).1 (cc))
asset_eq_iff (cw20 a) (native b) = (λ h. cc, λ e. cc)
asset_eq_iff (native a) (cw20 b) = (λ h. cc, λ e. cc)

pub asset_eq_refl : (a : AssetInfo) → asset_eq a a ≡ true
asset_eq_refl a = (asset_eq_iff a a).1 refl

pub asset_eq-false : (a b : AssetInfo) → b ≢ a → asset_eq a b ≡ false
asset_eq-false a b ne = elim (Bool-cases (asset_eq a b)) [
  | inl e ↦ absurd (ne (sym ((asset_eq_iff a b).0 e)))
  | inr e ↦ e
]

unfoldable pub is_native_token : AssetInfo → Bool
is_native_token (cw20 _) = false
is_native_token (native _) = true

unfoldable pub as_bytes : AssetInfo → Bytes
as_bytes (native denom) = denom
as_bytes (cw20 contract_addr) = contract_addr

unfoldable pub info_to_string_legacy : AssetInfo → Bytes
info_to_string_legacy (cw20 contract_addr) = contract_addr
info_to_string_legacy (native denom) = denom

-- `format!("{}:{}", …)`; how an amount is written is a parameter.
unfoldable pub to_string_legacy : (amount_text : ℕ → Bytes) → Asset → Bytes
to_string_legacy amount_text asset =
    info_to_string_legacy asset.info ++ 58 ∷ amount_text asset.amount

-- `iter().find(|x| x.denom == denom)` on the coins that were sent.
unfoldable pub find_coin : Bytes → List Coin → Option Coin
find_coin denom [] = none
find_coin denom (c ∷ cs) = if bytes_eq c.denom denom then some c else find_coin denom cs

abbrev pub balance_mismatch : StdError
balance_mismatch =
    generic_err "Native token balance mismatch between the argument and the transferred"

-- The amount that a native asset claims is the amount that came with the message.
unfoldable pub assert_sent_native_token_balance : Asset → MessageInfo → StdResult (Unit {0})
assert_sent_native_token_balance a info = elim (a.info) [
  | cw20 _ ↦ ok tt
  | native denom ↦ elim (find_coin denom info.funds) [
    | some coin ↦ if a.amount == coin.amount then ok tt else err balance_mismatch
    | none ↦ if a.amount == 0 then ok tt else err balance_mismatch
  ]
]
