-- ===== src/Factory/Pairs/Map.antt =====
-- The laws of the map of pairs.
use prismswap_contracts.Base.{
  ◌≡◌, refl, none, some, [], ◌∷◌, arith, Bytes, bytes_eq, bytes_eq_iff, bytes_eq_refl,
  if◌then◌else◌,
}
use prismswap_contracts.Factory.Pairs.{PairConfig, Pairs, lookup, save, remove}

pub lookup-save :
    (key j : Bytes) (v : PairConfig) (pairs : Pairs)
    → lookup j (save key v pairs) ≡ (if bytes_eq key j then some v else lookup j pairs)
unfolding lookup save
lookup-save key j v [] = refl
lookup-save key j v ((k, w) ∷ pairs) =
    ground
      (arith, bytes_eq_iff k key, bytes_eq_iff key j, bytes_eq_iff k j, lookup-save key j v pairs)

pub lookup-remove :
    (key j : Bytes) (pairs : Pairs)
    → lookup j (remove key pairs) ≡ (if bytes_eq key j then none else lookup j pairs)
unfolding lookup remove
lookup-remove key j [] = ground arith
lookup-remove key j ((k, w) ∷ pairs) =
    ground
      (arith, bytes_eq_iff k key, bytes_eq_iff key j, bytes_eq_iff k j, lookup-remove key j pairs)

pub lookup-save_self :
    (key : Bytes) (v : PairConfig) (pairs : Pairs) → lookup key (save key v pairs) ≡ some v
lookup-save_self key v pairs = rw (lookup-save key key v pairs, bytes_eq_refl key)

pub lookup-remove_self : (key : Bytes) (pairs : Pairs) → lookup key (remove key pairs) ≡ none
lookup-remove_self key pairs = rw (lookup-remove key key pairs, bytes_eq_refl key)
