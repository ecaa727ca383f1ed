-- ===== src/Factory/Pairs.antt =====
-- The map `PAIRS` of contracts/prismswap_factory/src/state.rs, as an association list, and its keys.
pub mod Key
pub mod Map
use prismswap_contracts.Base.{
  ℕ, ◌≡◌, Bool, true, false, Option, none, some, List, [], ◌∷◌, ◌++◌, Bytes, bytes_eq, bytes_ltb,
  if◌then◌else◌,
}
use prismswap_contracts.Asset.{Addr, AssetInfo, as_bytes}
use prismswap_contracts.Messages.{FeeConfig}

pub record PairConfig : Type 0 where
  pub pair_address : Addr
  pub fee_config : FeeConfig

abbrev pub Pairs : Type 0
Pairs = List (Bytes × PairConfig)

-- `PAIRS.may_load`
unfoldable pub lookup : Bytes → Pairs → Option PairConfig
lookup key [] = none
lookup key ((k, v) ∷ pairs) = if bytes_eq k key then some v else lookup key pairs

-- `PAIRS.save`
unfoldable pub save : Bytes → PairConfig → Pairs → Pairs
save key v [] = (key, v) ∷ []
save key v ((k, w) ∷ pairs) = if bytes_eq k key then (key, v) ∷ pairs else (k, w) ∷ save key v pairs

-- `PAIRS.remove`
unfoldable pub remove : Bytes → Pairs → Pairs
remove key [] = []
remove key ((k, w) ∷ pairs) =
    let rest = remove key pairs in if bytes_eq k key then rest else (k, w) ∷ rest

-- `sort_by` on two elements, which is stable.
unfoldable pub sort_infos : AssetInfo × AssetInfo → AssetInfo × AssetInfo
sort_infos infos =
    if bytes_ltb (as_bytes infos.1) (as_bytes infos.0) then (infos.1, infos.0) else infos

unfoldable pub pair_key : AssetInfo × AssetInfo → Bytes
pair_key infos = let sorted = sort_infos infos in as_bytes sorted.0 ++ as_bytes sorted.1
