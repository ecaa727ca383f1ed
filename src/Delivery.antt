-- ===== src/Delivery.antt =====
-- The delivery of the messages of a response, for any ledger that says what one message does.
use prismswap_contracts.Base.{
  ◌≡◌, refl, ◌∙◌, inl, inr, Option, none, some, List, [], ◌∷◌, ◌++◌, Option-cases, some-injective,
}
use prismswap_contracts.Messages.{CosmosMsg}

module _ {S : Type 0} (deliver : S → CosmosMsg → Option S) where
  -- The messages of a response, in their order; where one fails, so does the transaction.
  unfoldable pub deliver_all : S → List CosmosMsg → Option S
  deliver_all w [] = some w
  deliver_all w (msg ∷ msgs) = elim (deliver w msg) [ some w' ↦ deliver_all w' msgs | none ↦ none ]

  pub deliver_all-append :
      (w : S) (xs ys : List CosmosMsg) {w' : S}
      → deliver_all w (xs ++ ys) ≡ some w'
      → (v : S) × (deliver_all w xs ≡ some v) × (deliver_all v ys ≡ some w')
  unfolding deliver_all
  deliver_all-append w [] ys h = (w, refl, h)
  deliver_all-append w (msg ∷ msgs) ys h = elim (Option-cases (deliver w msg)) [
    | inl failed ↦ absurd (cc (rw (deliver_all, failed) at h))
    | inr (v, e) ↦
        let (v', first, second) = deliver_all-append v msgs ys (rw (deliver_all, e) at h) in
        (v', rw (deliver_all, e) first, second)
  ]

  pub deliver_all-both :
      (w : S) (xs ys : List CosmosMsg) {v w' : S}
      → deliver_all w xs ≡ some v
      → deliver_all v ys ≡ some w'
      → deliver_all w (xs ++ ys) ≡ some w'
  unfolding deliver_all
  deliver_all-both w [] ys {v} d0 d1 = let same : w ≡ v = some-injective d0 in rw same d1
  deliver_all-both w (msg ∷ msgs) ys d0 d1 = elim (Option-cases (deliver w msg)) [
    | inl failed ↦ absurd (cc (rw (deliver_all, failed) at d0))
    | inr (u, e) ↦ rw (deliver_all, e) (deliver_all-both u msgs ys (rw (deliver_all, e) at d0) d1)
  ]

  pub deliver_all-one :
      (w : S) (msg : CosmosMsg) {w' : S}
      → deliver_all w (msg ∷ []) ≡ some w'
      → deliver w msg ≡ some w'
  unfolding deliver_all
  deliver_all-one w msg h = elim (Option-cases (deliver w msg)) [
    | inl failed ↦ absurd (cc (rw (deliver_all, failed) at h))
    | inr (v, e) ↦ e ∙ (rw (deliver_all, e) at h)
  ]

  pub deliver_all-cons :
      (w : S) (msg : CosmosMsg) (msgs : List CosmosMsg) {v w' : S}
      → deliver w msg ≡ some v
      → deliver_all v msgs ≡ some w'
      → deliver_all w (msg ∷ msgs) ≡ some w'
  unfolding deliver_all
  deliver_all-cons w msg msgs e rest = rw (deliver_all, e) rest

  pub deliver_all-uncons :
      (w : S) (msg : CosmosMsg) (msgs : List CosmosMsg) {w' : S}
      → deliver_all w (msg ∷ msgs) ≡ some w'
      → (v : S) × (deliver w msg ≡ some v) × (deliver_all v msgs ≡ some w')
  unfolding deliver_all
  deliver_all-uncons w msg msgs h = elim (Option-cases (deliver w msg)) [
    | inl failed ↦ absurd (cc (rw (deliver_all, failed) at h))
    | inr (v, e) ↦ (v, e, rw (deliver_all, e) at h)
  ]

  pub deliver_all-nil : (w : S) {w' : S} → deliver_all w [] ≡ some w' → w ≡ w'
  unfolding deliver_all
  deliver_all-nil w h = some-injective h

  pub deliver_all-done : (w : S) → deliver_all w [] ≡ some w
  unfolding deliver_all
  deliver_all-done w = refl
