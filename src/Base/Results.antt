-- ===== src/Base/Results.antt =====
-- How a call of a contract ends: with a value, with an error that it returns, or by a panic, which
-- aborts the transaction. `?` is the bind, and `?` into another error type is `map_err`.
use mathlib.Core.Path.{◌≡◌, refl}
use mathlib.Core.Bool.{Bool, true, false}
use mathlib.Core.Option.{Option, none, some}

pub data Outcome {ℓ} (E : Type 0) (A : Type ℓ) : Type ℓ where
  ok : A → Outcome E A
  err : E → Outcome E A
  panic : Outcome E A

infixl 5 ◌>>=◌ ◌>>◌
unfoldable pub ◌>>=◌ {ℓ κ} :
    {E : Type 0} {A : Type ℓ} {B : Type κ} → Outcome E A → (A → Outcome E B) → Outcome E B
ok a >>= f = f a
err e >>= f = err e
panic >>= f = panic

abbrev pub ◌>>◌ {ℓ} : {E : Type 0} {B : Type ℓ} → Outcome E (Unit {0}) → Outcome E B → Outcome E B
m >> k = m >>= λ _. k

-- `return Err(e)` unless the test holds.
unfoldable pub ensure : {E : Type 0} → Bool → E → Outcome E (Unit {0})
ensure true e = ok tt
ensure false e = err e

-- The value of a call that panics where it has none.
unfoldable pub must {ℓ} : {E : Type 0} {A : Type ℓ} → Option A → Outcome E A
must (some a) = ok a
must none = panic

-- The value of a checked call, or the error that stands for its failure.
unfoldable pub ok_or {ℓ} : {E : Type 0} {A : Type ℓ} → Option A → E → Outcome E A
ok_or (some a) e = ok a
ok_or none e = err e

unfoldable pub unwrap_or {ℓ} : {A : Type ℓ} → Option A → A → A
unwrap_or (some a) d = a
unwrap_or none d = d

unfoldable pub map_err {ℓ} : {E F : Type 0} {A : Type ℓ} → (E → F) → Outcome E A → Outcome F A
map_err f (ok a) = ok a
map_err f (err e) = err (f e)
map_err f panic = panic

-- Inversion of a chain that ended with a value: what its first call gave is handed on.
module _ {ℓ κ ν} {E : Type 0} {A : Type ℓ} {B : Type κ} {C : Type ν} {b : B} where
  pub >>=-elim :
      (m : Outcome E A) (f : A → Outcome E B)
      → (m >>= f) ≡ ok b
      → ((a : A) → m ≡ ok a → f a ≡ ok b → C)
      → C
  unfolding ◌>>=◌
  >>=-elim (ok a) f h k = k a refl h
  >>=-elim (err e) f h k = absurd (cc)
  >>=-elim panic f h k = absurd (cc)

  pub must-elim :
      (o : Option A) (f : A → Outcome E B)
      → (must o >>= f) ≡ ok b
      → ((a : A) → o ≡ some a → f a ≡ ok b → C)
      → C
  unfolding must ◌>>=◌
  must-elim (some a) f h k = k a refl h
  must-elim none f h k = absurd (cc)

  pub ok_or-elim :
      (o : Option A) (e : E) (f : A → Outcome E B)
      → (ok_or o e >>= f) ≡ ok b
      → ((a : A) → o ≡ some a → f a ≡ ok b → C)
      → C
  unfolding ok_or ◌>>=◌
  ok_or-elim (some a) e f h k = k a refl h
  ok_or-elim none e f h k = absurd (cc)

  pub map_err-elim :
      {F : Type 0} (g : F → E) (m : Outcome F A) (f : A → Outcome E B)
      → (map_err g m >>= f) ≡ ok b
      → ((a : A) → m ≡ ok a → f a ≡ ok b → C)
      → C
  unfolding map_err ◌>>=◌
  map_err-elim g (ok a) f h k = k a refl h
  map_err-elim g (err e) f h k = absurd (cc)
  map_err-elim g panic f h k = absurd (cc)

module _ {κ ν} {E : Type 0} {B : Type κ} {C : Type ν} {b : B} where
  -- A guard that was passed.
  pub ensure-elim :
      (c : Bool) (e : E) (f : Unit {0} → Outcome E B)
      → (ensure c e >>= f) ≡ ok b
      → (c ≡ true → f tt ≡ ok b → C)
      → C
  unfolding ensure ◌>>=◌
  ensure-elim true e f h k = k refl h
  ensure-elim false e f h k = absurd (cc)

pub ensure-eq-ok : {E : Type 0} (b : Bool) (e : E) {u : Unit {0}} → ensure b e ≡ ok u → b ≡ true
unfolding ensure
ensure-eq-ok true e h = refl
ensure-eq-ok false e h = cc

pub ok-injective {ℓ} :
    {E : Type 0} {A : Type ℓ} {a b : A} → ◌≡◌ {A = Outcome E A} (ok a) (ok b) → a ≡ b
ok-injective h = cc

pub some-injective {ℓ} : {A : Type ℓ} {a b : A} → ◌≡◌ {A = Option A} (some a) (some b) → a ≡ b
some-injective h = cc

pub ok_or-some {ℓ} :
    {E : Type 0} {A : Type ℓ} {o : Option A} {a : A} (e : E) → o ≡ some a → ok_or o e ≡ ok a
unfolding ok_or
ok_or-some e h = rw h

-- The first call of a chain, where its value is known.
module _ {ℓ κ} {E : Type 0} {A : Type ℓ} {B : Type κ} where
  pub bind-ok : {m : Outcome E A} {a : A} (f : A → Outcome E B) → m ≡ ok a → (m >>= f) ≡ f a
  unfolding ◌>>=◌
  bind-ok f e = rw e

  pub bind-err : {m : Outcome E A} {x : E} (f : A → Outcome E B) → m ≡ err x → (m >>= f) ≡ err x
  unfolding ◌>>=◌
  bind-err f e = rw e

  pub must-some : {o : Option A} {a : A} (f : A → Outcome E B) → o ≡ some a → (must o >>= f) ≡ f a
  unfolding ◌>>=◌ must
  must-some f e = rw e

  pub must-none : {o : Option A} (f : A → Outcome E B) → o ≡ none → (must o >>= f) ≡ panic
  unfolding ◌>>=◌ must
  must-none f e = rw e

  pub map_err-ok :
      {F : Type 0} (g : F → E) {m : Outcome F A} {a : A} (f : A → Outcome E B)
      → m ≡ ok a
      → (map_err g m >>= f) ≡ f a
  unfolding ◌>>=◌ map_err
  map_err-ok g f e = rw e

  pub map_err-err :
      {F : Type 0} (g : F → E) {m : Outcome F A} {x : F} (f : A → Outcome E B)
      → m ≡ err x
      → (map_err g m >>= f) ≡ err (g x)
  unfolding ◌>>=◌ map_err
  map_err-err g f e = rw e

module _ {κ} {E : Type 0} {B : Type κ} where
  pub ensure-true :
      {c : Bool} (e : E) (f : Unit {0} → Outcome E B) → c ≡ true → (ensure c e >>= f) ≡ f tt
  unfolding ◌>>=◌ ensure
  ensure-true e f h = rw h

  pub ensure-false :
      {c : Bool} (e : E) (f : Unit {0} → Outcome E B) → c ≡ false → (ensure c e >>= f) ≡ err e
  unfolding ◌>>=◌ ensure
  ensure-false e f h = rw h
