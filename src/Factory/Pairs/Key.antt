-- ===== src/Factory/Pairs/Key.antt =====
-- `pair_key`: its symmetry, and where it confuses two pairs.
use prismswap_contracts.Base.{
  ◌≡◌, ◌∙◌, sym, true, false, inl, inr, ◌++◌, append_assoc, Bytes, Bool-cases, bytes_ltb,
  bytes_ltb_asymm, bytes_ltb_antisymm,
}
use prismswap_contracts.Asset.{AssetInfo, native, as_bytes}
use prismswap_contracts.Factory.Pairs.{sort_infos, pair_key}

pair_key_sorted :
    (a b : AssetInfo)
    → bytes_ltb (as_bytes b) (as_bytes a) ≡ false
    → pair_key (a, b) ≡ as_bytes a ++ as_bytes b
unfolding pair_key sort_infos
pair_key_sorted a b h = rw h

pair_key_unsorted :
    (a b : AssetInfo)
    → bytes_ltb (as_bytes b) (as_bytes a) ≡ true
    → pair_key (a, b) ≡ as_bytes b ++ as_bytes a
unfolding pair_key sort_infos
pair_key_unsorted a b h = rw h

-- The key of a pair does not depend on the order in which its assets are given.
pub pair_key_symm : (a b : AssetInfo) → pair_key (a, b) ≡ pair_key (b, a)
pair_key_symm a b = elim (Bool-cases (bytes_ltb (as_bytes b) (as_bytes a))) [
  | inl less ↦
      pair_key_unsorted a b less
      ∙ sym (pair_key_sorted b a (bytes_ltb_asymm (as_bytes b) (as_bytes a) less))
  | inr ge ↦ elim (Bool-cases (bytes_ltb (as_bytes a) (as_bytes b))) [
    | inl less ↦ pair_key_sorted a b ge ∙ sym (pair_key_unsorted b a less)
    | inr le ↦
        let same = bytes_ltb_antisymm (as_bytes a) (as_bytes b) le ge in
        pair_key_sorted a b ge ∙ (rw same) ∙ sym (pair_key_sorted b a le)
  ]
]

-- The two parts of a key are not kept apart: a piece that moves from the front of the second name to
-- the end of the first leaves the key as it is, wherever both pairs are in order.
pub pair_key_collides :
    (a b c : Bytes)
    → bytes_ltb (b ++ c) a ≡ false
    → bytes_ltb c (a ++ b) ≡ false
    → pair_key (native a, native (b ++ c)) ≡ pair_key (native (a ++ b), native c)
unfolding as_bytes
pair_key_collides a b c h k =
    pair_key_sorted (native a) (native (b ++ c)) h
    ∙ sym (append_assoc a b c)
    ∙ sym (pair_key_sorted (native (a ++ b)) (native c) k)
