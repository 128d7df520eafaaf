-- ===== src/Prelude/Methods.antt =====
-- Methods that change a state, may return an error early (`?`), and may wait for a lock for ever.
-- What was written before an error stays written, so the state comes back beside every result.
use mathlib.Core.Path.{◌≡◌}
use mathlib.Core.Option.{Option, none, some}

-- the kinds of errors that the source can produce
pub data Error : Type 0 where
  io json toml closed bad_usage : Error
  message_too_short incomplete_message : Error
  -- the `()` of the classifier
  unit_error : Error

pub data Result {ℓ} (A : Type ℓ) : Type ℓ where
  ok : A → Result A
  err : Error → Result A
  -- an `.await` that never completes
  blocked : Result A

abbrev pub Exec {ℓ κ} : Type ℓ → Type κ → Type (ℓ ⊔ κ)
Exec S A = S → Result A × S

module _ {ℓ κ} {S : Type ℓ} {A : Type κ} where
  abbrev pub pure : A → Exec S A
  pure a s = (ok a, s)

  abbrev pub throw : Error → Exec S A
  throw e s = (err e, s)

  abbrev pub gets : (S → A) → Exec S A
  gets f s = (ok (f s), s)

  abbrev pub or_throw : Option A → Error → Exec S A
  or_throw none e s = (err e, s)
  or_throw (some a) e s = (ok a, s)

abbrev pub modify {ℓ} : {S : Type ℓ} → (S → S) → Exec S (Unit {0})
modify f s = (ok tt, f s)

module _ {ℓ κ μ} {S : Type ℓ} {A : Type κ} {B : Type μ} where
  abbrev pub continue : Result A → (A → Exec S B) → Exec S B
  continue (ok a) f s = f a s
  continue (err e) f s = (err e, s)
  continue blocked f s = (blocked, s)

  infixl 5 ◌>>=◌ ◌>>◌
  abbrev pub ◌>>=◌ : Exec S A → (A → Exec S B) → Exec S B
  ◌>>=◌ m f s = let (r, s') = m s in continue r f s'

  abbrev pub ◌>>◌ : Exec S A → Exec S B → Exec S B
  m >> k = m >>= λ _. k

  -- One step of a block that has gone on.
  pub bind_ok :
      (m : Exec S A) (f : A → Exec S B) {s t : S} {a : A} → m s ≡ (ok a, t) → (m >>= f) s ≡ f a t
  bind_ok m f e = rw e

  pub bind_err :
      (m : Exec S A) (f : A → Exec S B) {s t : S} {x : Error}
      → m s ≡ (err x, t)
      → (m >>= f) s ≡ (err x, t)
  bind_err m f e = rw e
