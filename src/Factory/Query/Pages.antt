-- ===== src/Factory/Query/Pages.antt =====
-- The pages of `read_pairs`: contracts/prismswap_factory/src/state.rs under what cw_storage_plus
-- documents of `range`.
use prismswap_contracts.Base.{
  ℕ, zero, suc, min, ◌<◌, ◌≡◌, refl, sym, ◌∙◌, ap, true, false, Option, none, some, List, [], ◌∷◌,
  ◌++◌, map, arith, Bytes, append_assoc, map-append, take, drop, take-drop, unwrap_or, bytes_ltb,
  bytes_ltb_asymm, bytes_eq, Bool-cases, inl, inr, if◌then◌else◌, subst,
}
use mathlib.Core.List.{Mem, mem-cons_self, mem-cons_of_mem}
use prismswap_contracts.Asset.{AssetInfo}
use prismswap_contracts.Factory.Pairs.{PairConfig, Pairs, lookup, pair_key}
use prismswap_contracts.Factory.Query.{max_limit, default_limit, calc_range_start, read_pairs}

-- The items with a key above the bound.
unfoldable pub above : Bytes → Pairs → Pairs
above bound [] = []
above bound ((k, v) ∷ pairs) =
    let rest = above bound pairs in if bytes_ltb bound k then (k, v) ∷ rest else rest

abbrev pub AllAbove : Bytes → Pairs → Type 0
AllAbove k [] = Unit
AllAbove k ((j, v) ∷ pairs) = (bytes_ltb k j ≡ true) × AllAbove k pairs

abbrev pub IsAscending : Pairs → Type 0
IsAscending [] = Unit
IsAscending ((k, v) ∷ pairs) = AllAbove k pairs × IsAscending pairs

-- Bytes of text: none is 0 or 1.
abbrev pub IsText : Bytes → Type 0
IsText [] = Unit
IsText (b ∷ bs) = (1 < b) × IsText bs

abbrev pub AllText : Pairs → Type 0
AllText [] = Unit
AllText ((k, v) ∷ pairs) = IsText k × AllText pairs

-- `range` on a register: every item, in the order of the keys, and with a bound those above it.
pub record IsRange (range : Pairs → Option Bytes → Pairs) (pairs : Pairs) : Type 0 where
  pub complete : (k : Bytes) → lookup k (range pairs none) ≡ lookup k pairs
  pub ascending : IsAscending (range pairs none)
  pub bounded : (bound : Bytes) → range pairs (some bound) ≡ above bound (range pairs none)

not_above_self : (k : Bytes) → bytes_ltb (k ++ 1 ∷ []) k ≡ false
unfolding bytes_ltb
not_above_self [] = refl
not_above_self (b ∷ k) = ground (arith, not_above_self k)

below_longer : (j k : Bytes) → bytes_ltb j k ≡ true → bytes_ltb j (k ++ 1 ∷ []) ≡ true
unfolding bytes_ltb
below_longer j [] h = cc
below_longer [] (b ∷ k) h = refl
below_longer (a ∷ j) (b ∷ k) h = ground (arith, below_longer j k)

-- Between a key and the bound after it there is no text.
text_above : (k j : Bytes) → IsText j → bytes_ltb k j ≡ true → bytes_ltb (k ++ 1 ∷ []) j ≡ true
unfolding bytes_ltb
text_above k [] t h = cc
text_above [] (b ∷ j) t h = ground (arith, t.0)
text_above (a ∷ k) (b ∷ j) t h = ground (arith, text_above k j t.1)

above_all :
    (k : Bytes) (pairs : Pairs)
    → AllText pairs
    → AllAbove k pairs
    → above (k ++ 1 ∷ []) pairs ≡ pairs
unfolding above
above_all k [] t a = refl
above_all k ((j, v) ∷ pairs) t a = rw (text_above k j t.0 a.0, above_all k pairs t.1 a.1)

AllAbove-at :
    (k j : Bytes) (v : PairConfig) (front back : Pairs)
    → AllAbove k (front ++ (j, v) ∷ back)
    → bytes_ltb k j ≡ true
AllAbove-at k j v [] back a = a.0
AllAbove-at k j v (item ∷ front) back a = AllAbove-at k j v front back a.1

-- What is above the bound after a key comes after the key.
above_rest :
    (k : Bytes) (v : PairConfig) (front back : Pairs)
    → IsAscending (front ++ (k, v) ∷ back)
    → AllText (front ++ (k, v) ∷ back)
    → above (k ++ 1 ∷ []) (front ++ (k, v) ∷ back) ≡ back
unfolding above
above_rest k v [] back a t = rw (not_above_self k) (above_all k back t.1 a.0)
above_rest k v ((j, w) ∷ front) back a t =
    let low : bytes_ltb (k ++ 1 ∷ []) j ≡ false =
      bytes_ltb_asymm j (k ++ 1 ∷ []) (below_longer j k (AllAbove-at j k v front back a.0)) in
    rw low (above_rest k v front back a.1 t.1)

lookup-Mem :
    (k : Bytes) (items : Pairs) {v : PairConfig}
    → lookup k items ≡ some v
    → Mem v (map (λ (item : Bytes × PairConfig). item.1) items)
unfolding lookup
lookup-Mem k [] h = absurd (cc)
lookup-Mem k ((j, w) ∷ items) {v} h = elim (Bool-cases (bytes_eq j k)) [
  | inl same ↦
      let found : ◌≡◌ {A = Option PairConfig} (some w) (some v) = rw (lookup, same) at h in
      let e : w ≡ v = cc found in
      subst (λ t. Mem t (w ∷ map (λ (item : Bytes × PairConfig). item.1) items)) e mem-cons_self
  | inr other ↦ mem-cons_of_mem w (lookup-Mem k items (rw (lookup, other) at h))
]

-- How many items a page has at most.
abbrev pub page_size : Option ℕ → ℕ
page_size limit = min (unwrap_or limit default_limit) max_limit

module _ (range : Pairs → Option Bytes → Pairs) (pairs : Pairs) (limit : Option ℕ) where
  -- A client that reads page after page, each after the last pair of the one before, until a page is
  -- empty: the pages, one after the other.
  pub data Walk : Option (AssetInfo × AssetInfo) → List PairConfig → Type 0 where
    finished :
        {start : Option (AssetInfo × AssetInfo)}
        → read_pairs range pairs start limit ≡ []
        → Walk start []
    turned :
        {start : Option (AssetInfo × AssetInfo)} {rest : List PairConfig} (init : Pairs)
        (asset_infos : AssetInfo × AssetInfo) (v : PairConfig)
        → take (page_size limit) (range pairs (calc_range_start start))
          ≡ init ++ (pair_key asset_infos, v) ∷ []
        → Walk (some asset_infos) rest
        → Walk start (read_pairs range pairs start limit ++ rest)

  module _ (documented : IsRange range pairs) (text : AllText (range pairs none))
      (some_items : 0 < page_size limit) where
    range_next :
        (asset_infos : AssetInfo × AssetInfo) (v : PairConfig) (front init back : Pairs)
        → range pairs none ≡ front ++ (init ++ (pair_key asset_infos, v) ∷ back)
        → range pairs (calc_range_start (some asset_infos)) ≡ back
    unfolding calc_range_start
    range_next asset_infos v front init back e =
        let whole : range pairs none ≡ (front ++ init) ++ (pair_key asset_infos, v) ∷ back =
          e ∙ sym (append_assoc front init _) in
        documented.bounded (pair_key asset_infos ++ 1 ∷ [])
        ∙ ap (above (pair_key asset_infos ++ 1 ∷ [])) whole
        ∙ above_rest (pair_key asset_infos) v (front ++ init) back
            (subst IsAscending whole documented.ascending) (subst AllText whole text)

    empty_page :
        (n : ℕ) (items : Pairs)
        → 0 < n
        → map (λ (item : Bytes × PairConfig). item.1) (take n items) ≡ []
        → items ≡ []
    empty_page zero items pos h = absurd (omega arith)
    empty_page (suc n) [] pos h = refl
    empty_page (suc n) (item ∷ items) pos h = absurd (cc)

    Walk-rest :
        {start : Option (AssetInfo × AssetInfo)} {listed : List PairConfig} (front : Pairs)
        → range pairs none ≡ front ++ range pairs (calc_range_start start)
        → Walk start listed
        → listed
          ≡ map (λ (item : Bytes × PairConfig). item.1) (range pairs (calc_range_start start))
    unfolding read_pairs
    Walk-rest {start} front e (finished none_left) =
        ap (map (λ (item : Bytes × PairConfig). item.1))
          (sym (empty_page (page_size limit) _ some_items none_left))
    Walk-rest {start} front e (turned init asset_infos v page walk) =
        let value : Bytes × PairConfig → PairConfig = λ item. item.1 in
        let here = range pairs (calc_range_start start) in
        let shown = take (page_size limit) here in
        let back = drop (page_size limit) here in
        let split : here ≡ init ++ (pair_key asset_infos, v) ∷ back =
          sym (take-drop (page_size limit) here)
          ∙ ap (λ t. t ++ back) page
          ∙ append_assoc init ((pair_key asset_infos, v) ∷ []) back in
        let next = range_next asset_infos v front init back (e ∙ ap (λ t. front ++ t) split) in
        let whole : range pairs none
            ≡ (front ++ shown) ++ range pairs (calc_range_start (some asset_infos)) =
          e
          ∙ ap (λ t. front ++ t) (sym (take-drop (page_size limit) here))
          ∙ sym (append_assoc front shown back)
          ∙ ap (λ t. (front ++ shown) ++ t) (sym next) in
        ap (λ t. map value shown ++ t) (Walk-rest (front ++ shown) whole walk ∙ ap (map value) next)
        ∙ sym (map-append value shown back)
        ∙ ap (map value) (take-drop (page_size limit) here)

    -- Reading page after page until one is empty lists the whole range of the register, item after item
    -- in the order of the keys, and leaves no registered pair out, whatever the limit on a page other
    -- than zero. No key has a byte 0 or 1, and the range is as its crate documents it.
    pub Walk-lists :
        {listed : List PairConfig}
        → Walk none listed
        → (listed ≡ map (λ (item : Bytes × PairConfig). item.1) (range pairs none))
          × ((k : Bytes) (v : PairConfig) → lookup k pairs ≡ some v → Mem v listed)
    unfolding calc_range_start
    Walk-lists walk =
        let whole = Walk-rest [] refl walk in
        (
          whole,
          λ k v h.
              subst (Mem v) (sym whole)
                (lookup-Mem k (range pairs none) (documented.complete k ∙ h)),
        )
