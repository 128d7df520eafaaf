-- ===== src/Prelude/Keeps.antt =====
-- A view of the state that a method leaves as it is, however it ends. One rule for each way to
-- build a method.
use mathlib.Core.Path.{◌≡◌, refl, ◌∙◌}
use mathlib.Core.Bool.{Bool, true, false}
use mathlib.Core.Option.{Option, none, some}
use raft_ebpf.Prelude.Tests.{if◌then◌else◌}
use raft_ebpf.Prelude.Methods.{
  Error, Result, ok, err, blocked, Exec, pure, gets, or_throw, modify, continue, ◌>>=◌, ◌>>◌,
}

pub record Keeps {S A X : Type 0} (view : S → X) (m : Exec S A) : Type 0 where
  pub at : (s : S) → view (m s).1 ≡ view s

module _ {S A X : Type 0} {view : S → X} where
  pub Keeps-pure : (a : A) → Keeps view (pure a)
  Keeps-pure a = record { at = λ s. refl }

  pub Keeps-gets : (f : S → A) → Keeps view (gets f)
  Keeps-gets f = record { at = λ s. refl }

  pub Keeps-or_throw : (o : Option A) (e : Error) → Keeps view (or_throw o e)
  Keeps-or_throw none e = record { at = λ s. refl }
  Keeps-or_throw (some a) e = record { at = λ s. refl }

  pub Keeps-if :
      (b : Bool) (m n : Exec S A) → Keeps view m → Keeps view n → Keeps view (if b then m else n)
  Keeps-if true m n km kn = km
  Keeps-if false m n km kn = kn

module _ {S X : Type 0} {view : S → X} where
  pub Keeps-modify : (f : S → S) → ((s : S) → view (f s) ≡ view s) → Keeps view (modify f)
  Keeps-modify f same = record { at = same }

module _ {S A B X : Type 0} {view : S → X} where
  pub Keeps-continue :
      (r : Result A) (f : A → Exec S B) (s : S)
      → ((a : A) → Keeps view (f a))
      → view (continue r f s).1 ≡ view s
  Keeps-continue (ok a) f s kf = (kf a).at s
  Keeps-continue (err e) f s kf = refl
  Keeps-continue blocked f s kf = refl

  pub Keeps-bind :
      (m : Exec S A) (f : A → Exec S B)
      → Keeps view m
      → ((a : A) → Keeps view (f a))
      → Keeps view (m >>= f)
  Keeps-bind m f km kf = record {
    at = λ s. let (r, s') = m s in Keeps-continue r f s' kf ∙ km.at s;
  }

  -- what follows `m` does not change what `m` has left
  pub view-bind :
      (m : Exec S A) (f : A → Exec S B) (s : S)
      → ((a : A) → Keeps view (f a))
      → view ((m >>= f) s).1 ≡ view (m s).1
  view-bind m f s kf = let (r, s') = m s in Keeps-continue r f s' kf

  pub Keeps-then : (m : Exec S A) (k : Exec S B) → Keeps view m → Keeps view k → Keeps view (m >> k)
  Keeps-then m k km kk = Keeps-bind m (λ _. k) km (λ _. kk)

pub ruleset keeps_rules = (Keeps-pure, Keeps-gets, Keeps-or_throw, Keeps-if, Keeps-bind, Keeps-then)
