-- ===== src/Base/Exec/Keeps.antt =====
-- Invariants of methods: a rule for each way to build one. A method keeps an invariant whether it
-- returns or raises.
use mathlib.Core.Path.{◌≡◌, sym, subst}
use mathlib.Core.Bool.{Bool, true, false}
use mathlib.Core.Option.{Option, none, some}
use novapanda.Base.Test.{if◌then◌else◌}
use novapanda.Base.Exec.{
  Result, ok, err, Exec, pure, raise, gets, or_raise, raise_if, continue, ◌>>=◌,
}

pub record Keeps {S E A : Type 0} (P : S → Type 0) (m : Exec S E A) : Type 0 where
  pub at : (s : S) → P s → P (m s).1

module _ {S E A : Type 0} {P : S → Type 0} where
  pub Keeps-pure : (a : A) → Keeps {E = E} P (pure a)
  unfolding pure
  Keeps-pure a = record { at = λ s h. h }

  pub Keeps-raise : (e : E) → Keeps {A = A} P (raise e)
  unfolding raise
  Keeps-raise e = record { at = λ s h. h }

  pub Keeps-gets : (f : S → A) → Keeps {E = E} P (gets f)
  unfolding gets
  Keeps-gets f = record { at = λ s h. h }

  pub Keeps-or_raise : (o : Option A) (e : E) → Keeps P (or_raise o e)
  unfolding or_raise
  Keeps-or_raise none e = record { at = λ s h. h }
  Keeps-or_raise (some a) e = record { at = λ s h. h }

  -- A method that only looks keeps everything.
  pub Keeps-looks : (m : Exec S E A) → ((s : S) → (m s).1 ≡ s) → Keeps P m
  Keeps-looks m same = record { at = λ s h. subst P (sym (same s)) h }

  pub Keeps-if :
      (b : Bool) (m n : Exec S E A) → Keeps P m → Keeps P n → Keeps P (if b then m else n)
  Keeps-if true m n km kn = km
  Keeps-if false m n km kn = kn

pub Keeps-raise_if :
    {S E : Type 0} {P : S → Type 0} (b : Bool) (e : E) → Keeps P (raise_if {S = S} b e)
unfolding raise_if
Keeps-raise_if true e = record { at = λ s h. h }
Keeps-raise_if false e = record { at = λ s h. h }

module _ {S E A B : Type 0} {P : S → Type 0} where
  Keeps-continue :
      (r : Result E A) (f : A → Exec S E B) (s : S)
      → P s
      → ((a : A) → Keeps P (f a))
      → P (continue r f s).1
  unfolding continue
  Keeps-continue (ok a) f s h kf = (kf a).at s h
  Keeps-continue (err e) f s h kf = h

  pub Keeps-bind :
      (m : Exec S E A) (f : A → Exec S E B)
      → Keeps P m
      → ((a : A) → Keeps P (f a))
      → Keeps P (m >>= f)
  unfolding ◌>>=◌
  Keeps-bind m f km kf = record { at = λ s h. Keeps-continue (m s).0 f (m s).1 (km.at s h) kf }

-- A method takes states with one property to states with another, whether it returns or raises.
pub record Leads {S E A : Type 0} (P Q : S → Type 0) (m : Exec S E A) : Type 0 where
  pub at : (s : S) → P s → Q (m s).1

module _ {S E A B : Type 0} {Q R : S → Type 0} where
  Leads-continue :
      (r : Result E A) (f : A → Exec S E B) (s : S)
      → Q s
      → ((s : S) → Q s → R s)
      → ((a : A) → Leads Q R (f a))
      → R (continue r f s).1
  unfolding continue
  Leads-continue (ok a) f s h weak lf = (lf a).at s h
  Leads-continue (err e) f s h weak lf = weak s h

  pub Leads-bind :
      {P : S → Type 0} (m : Exec S E A) (f : A → Exec S E B)
      → Leads P Q m
      → ((s : S) → Q s → R s)
      → ((a : A) → Leads Q R (f a))
      → Leads P R (m >>= f)
  unfolding ◌>>=◌
  Leads-bind m f lm weak lf = record {
    at = λ s h. Leads-continue (m s).0 f (m s).1 (lm.at s h) weak lf;
  }

  -- A block that reads the state first.
  pub Leads-look :
      (g : S → A) (f : A → Exec S E B)
      → ((s : S) → Q s → R (f (g s) s).1)
      → Leads Q R (gets g >>= f)
  unfolding ◌>>=◌
  Leads-look g f go = record { at = go }

module _ {S E A : Type 0} {Q : S → Type 0} {m : Exec S E A} where
  pub Leads-Keeps : Leads Q Q m → Keeps Q m
  Leads-Keeps l = record { at = l.at }

  pub Keeps-Leads : {P : S → Type 0} → ((s : S) → P s → Q s) → Keeps Q m → Leads P Q m
  Keeps-Leads weak k = record { at = λ s h. k.at s (weak s h) }

pub ruleset keeps_rules =
    (Keeps-pure, Keeps-raise, Keeps-gets, Keeps-or_raise, Keeps-if, Keeps-raise_if, Keeps-bind)
