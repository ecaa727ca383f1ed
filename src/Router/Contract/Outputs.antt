-- ===== src/Router/Contract/Outputs.antt =====
-- What `assert_operations` is for: a chain of operations leaves one asset behind.
use prismswap_contracts.Base.{
  ℕ, ◌≡◌, ◌≢◌, refl, sym, ap, ◌∙◌, Bool-cases, inl, inr, ◌⊎◌, Option, some, List, [], ◌∷◌, ok,
  Bytes, bytes_eq, bytes_eq_iff, length, ==_iff, arith, ensure-elim, must-elim,
}
use prismswap_contracts.Asset.{Addr, AssetInfo}
use prismswap_contracts.Messages.{Response}
use prismswap_contracts.Router.State.{SwapOperation, get_target_asset_info, Deps}
use prismswap_contracts.Router.Contract.{
  offered, remove_key, insert_key, ask_assets, assert_operations, last, execute_swap_operations,
}

abbrev Has : Bytes → List Bytes → Type 0
Has k [] = ⊥
Has k (x ∷ xs) = (x ≡ k) ⊎ Has k xs

-- No operation of the list offers the asset.
abbrev pub NeverOffered : AssetInfo → List SwapOperation → Type 0
NeverOffered a [] = Unit
NeverOffered a (operation ∷ operations) = (offered operation ≢ a) × NeverOffered a operations

-- An operation of the list returns the asset, and no later one offers it.
abbrev pub IsOutput : AssetInfo → List SwapOperation → Type 0
IsOutput a [] = ⊥
IsOutput a (operation ∷ operations) =
    ((get_target_asset_info operation ≡ a) × NeverOffered a operations) ⊎ IsOutput a operations

remove_key-Has :
    (k key : Bytes) (keys : List Bytes) → key ≢ k → Has k keys → Has k (remove_key key keys)
unfolding remove_key
remove_key-Has k key [] ne h = elim h [ ]
remove_key-Has k key (x ∷ keys) ne (inl e) = elim (Bool-cases (bytes_eq x key)) [
  | inl same ↦ absurd (ne (sym ((bytes_eq_iff x key).0 same) ∙ e))
  | inr other ↦ rw other (inl e)
]
remove_key-Has k key (x ∷ keys) ne (inr h) = elim (Bool-cases (bytes_eq x key)) [
  | inl same ↦ rw same (remove_key-Has k key keys ne h)
  | inr other ↦ rw other (inr (remove_key-Has k key keys ne h))
]

insert_key-Has : (k key : Bytes) (keys : List Bytes) → Has k keys → Has k (insert_key key keys)
unfolding insert_key
insert_key-Has k key [] h = elim h [ ]
insert_key-Has k key (x ∷ keys) (inl e) = elim (Bool-cases (bytes_eq x key)) [
  | inl same ↦ rw same (inl e)
  | inr other ↦ rw other (inl e)
]
insert_key-Has k key (x ∷ keys) (inr h) = elim (Bool-cases (bytes_eq x key)) [
  | inl same ↦ rw same (inr h)
  | inr other ↦ rw other (inr (insert_key-Has k key keys h))
]

insert_key-Has_self : (key : Bytes) (keys : List Bytes) → Has key (insert_key key keys)
unfolding insert_key
insert_key-Has_self key [] = inl refl
insert_key-Has_self key (x ∷ keys) = elim (Bool-cases (bytes_eq x key)) [
  | inl same ↦ rw same (inl ((bytes_eq_iff x key).0 same))
  | inr other ↦ rw other (inr (insert_key-Has_self key keys))
]

one_member : (keys : List Bytes) → length keys ≡ 1 → (j k : Bytes) → Has j keys → Has k keys → j ≡ k
one_member [] h j k a b = elim a [ ]
one_member (x ∷ []) h j k (inl a) (inl b) = sym a ∙ b
one_member (x ∷ []) h j k (inl a) (inr b) = elim b [ ]
one_member (x ∷ []) h j k (inr a) b = elim a [ ]
one_member (x ∷ y ∷ keys) h j k a b = absurd (omega arith)

module _ (to_string : AssetInfo → Bytes)
    (injective : (a b : AssetInfo) → to_string a ≡ to_string b → a ≡ b) where
  NeverOffered-Has :
      (a : AssetInfo) (operations : List SwapOperation) (keys : List Bytes)
      → NeverOffered a operations
      → Has (to_string a) keys
      → Has (to_string a) (ask_assets to_string operations keys)
  unfolding ask_assets
  NeverOffered-Has a [] keys never h = h
  NeverOffered-Has a (operation ∷ operations) keys (ne, never) h =
      NeverOffered-Has a operations _ never (
        insert_key-Has (to_string a) _ _
          (remove_key-Has (to_string a) _ keys (λ e. ne (injective _ _ e)) h))

  IsOutput-Has :
      (a : AssetInfo) (operations : List SwapOperation) (keys : List Bytes)
      → IsOutput a operations
      → Has (to_string a) (ask_assets to_string operations keys)
  unfolding ask_assets
  IsOutput-Has a [] keys out = elim out [ ]
  IsOutput-Has a (operation ∷ operations) keys (inl (e, never)) =
      NeverOffered-Has a operations _ never
        (rw (sym e) (insert_key-Has_self (to_string (get_target_asset_info operation)) _))
  IsOutput-Has a (operation ∷ operations) keys (inr out) = IsOutput-Has a operations _ out

last-IsOutput :
    (operations : List SwapOperation) {operation : SwapOperation}
    → last operations ≡ some operation
    → IsOutput (get_target_asset_info operation) operations
unfolding last
last-IsOutput [] h = absurd (cc)
last-IsOutput (first ∷ []) h = inl (ap get_target_asset_info (cc), tt)
last-IsOutput (first ∷ next ∷ operations) h = inr (last-IsOutput (next ∷ operations) h)

-- Where the router accepts a chain of operations, the target, which is what the last operation
-- returns, is the only asset that is left: whatever an operation returns is the target or is offered
-- by a later one. The texts of different assets differ.
pub outputs_are_target :
    (deps : Deps) (injective : (a b : AssetInfo) → deps.asset_text a ≡ deps.asset_text b → a ≡ b)
    (sender : Addr) (operations : List SwapOperation) (minimum_receive : Option ℕ)
    (to : Option Addr) {resp : Response}
    → execute_swap_operations deps sender operations minimum_receive to ≡ ok resp
    → (last_operation : SwapOperation) × (last operations ≡ some last_operation)
      × IsOutput (get_target_asset_info last_operation) operations
      × ((a : AssetInfo) → IsOutput a operations → a ≡ get_target_asset_info last_operation)
unfolding execute_swap_operations assert_operations
outputs_are_target deps injective sender operations minimum_receive to h =
    ensure-elim _ _ _ h λ some_given h. ensure-elim _ _ _ h λ within h.
      ensure-elim _ _ _ h λ single h. must-elim _ _ h λ operation e h.
        let out = last-IsOutput operations e in
        (
          operation,
          e,
          out,
          λ a o. injective _ _ (
              one_member _ ((==_iff _ _).0 single) _ _
                (IsOutput-Has deps.asset_text injective a operations [] o)
                (IsOutput-Has deps.asset_text injective _ operations [] out)),
        )
