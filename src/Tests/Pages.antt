-- ===== src/Tests/Pages.antt =====
-- The register of the factory, read by pages.
use prismswap_contracts.Base.{
  ◌≡◌, refl, true, Option, none, some, [], ◌∷◌, map, arith, Bytes, ascii, bytes_ltb, unwrap_or,
}
use mathlib.Core.List.{Mem}
use prismswap_contracts.Asset.{AssetInfo, native, as_bytes}
use prismswap_contracts.Factory.Pairs.{PairConfig, Pairs, lookup, sort_infos, pair_key}
use prismswap_contracts.Factory.Query.{calc_range_start, read_pairs}
use prismswap_contracts.Factory.Query.Pages.{
  above, AllText, IsRange, Walk, turned, finished, Walk-lists,
}
use prismswap_contracts.Tests.Register.{key, registered}
use prismswap_contracts.Tests.{owner, fees, asset_infos}

abbrev other : PairConfig
other = record { pair_address = owner; fee_config = fees }

abbrev atoms : AssetInfo × AssetInfo
atoms = (native (ascii "uusd"), native (ascii "uatom"))

-- Two pairs, in the order of their keys.
abbrev two_pairs : Pairs
two_pairs = (key, registered) ∷ (ascii "uatomuusd", other) ∷ []

-- The range of a list that is in order.
abbrev range : Pairs → Option Bytes → Pairs
range pairs none = pairs
range pairs (some bound) = above bound pairs

in_order : bytes_ltb key (ascii "uatomuusd") ≡ true
unfolding bytes_ltb
in_order = refl

range-IsRange : IsRange range two_pairs
range-IsRange = record {
  complete = λ k. refl;
  ascending = ((in_order, tt), (tt, tt));
  bounded = λ bound. refl;
}

two_pairs-AllText : AllText two_pairs
two_pairs-AllText = ground arith

-- One pair on a page.
walk : Walk range two_pairs (some 1) none (registered ∷ other ∷ [])
unfolding read_pairs calc_range_start pair_key sort_infos as_bytes bytes_ltb above unwrap_or
walk = turned [] asset_infos registered refl (turned [] atoms other refl (finished refl))

Walk-lists_example :
    ((registered ∷ other ∷ []) ≡ map (λ (item : Bytes × PairConfig). item.1) two_pairs)
    × ((k : Bytes) (v : PairConfig) → lookup k two_pairs ≡ some v → Mem v (registered ∷ other ∷ []))
unfolding unwrap_or
Walk-lists_example =
    Walk-lists range two_pairs (some 1) range-IsRange two_pairs-AllText (omega arith) walk
