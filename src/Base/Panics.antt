-- ===== src/Base/Panics.antt =====
-- Calls that return, with a value or with an error: those that do not panic.
use mathlib.Core.Path.{◌≡◌, refl}
use mathlib.Core.Logic.{◌≢◌}
use mathlib.Core.Bool.{Bool, true, false}
use mathlib.Core.Option.{Option, none, some}
use prismswap_contracts.Base.Results.{Outcome, ok, err, panic, ◌>>=◌, ensure, must, ok_or}

abbrev pub Returns : {E A : Type 0} → Outcome E A → Type 0
Returns m = m ≢ panic

pub ok-Returns : {E A : Type 0} (a : A) → Returns {E = E} (ok a)
ok-Returns a h = absurd (cc)

pub err-Returns : {E A : Type 0} (e : E) → Returns {A = A} (err e)
err-Returns e h = absurd (cc)

pub ensure_last-Returns : {E : Type 0} (c : Bool) (e : E) → Returns (ensure c e)
unfolding ensure
ensure_last-Returns true e = ok-Returns tt
ensure_last-Returns false e = err-Returns e

module _ {E A B : Type 0} where
  pub >>=-Returns :
      (m : Outcome E A) (f : A → Outcome E B)
      → Returns m
      → ((a : A) → m ≡ ok a → Returns (f a))
      → Returns (m >>= f)
  unfolding ◌>>=◌
  >>=-Returns (ok a) f r k = k a refl
  >>=-Returns (err e) f r k = err-Returns e
  >>=-Returns panic f r k = absurd (r refl)

  pub must-Returns :
      {a : A} (o : Option A) (f : A → Outcome E B)
      → o ≡ some a
      → Returns (f a)
      → Returns (must o >>= f)
  unfolding must ◌>>=◌
  must-Returns o f e r = rw e r

  pub ok_or-Returns :
      (o : Option A) (e : E) (f : A → Outcome E B)
      → ((a : A) → Returns (f a))
      → Returns (ok_or o e >>= f)
  unfolding ok_or ◌>>=◌
  ok_or-Returns (some a) e f k = k a
  ok_or-Returns none e f k = err-Returns e

module _ {E B : Type 0} where
  pub ensure-Returns :
      (c : Bool) (e : E) (f : Unit {0} → Outcome E B)
      → (c ≡ true → Returns (f tt))
      → Returns (ensure c e >>= f)
  unfolding ensure ◌>>=◌
  ensure-Returns true e f k = k refl
  ensure-Returns false e f k = err-Returns e
