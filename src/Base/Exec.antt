-- ===== src/Base/Exec.antt =====
-- Methods that mutate an object and may raise. What was written before a raise stays written, so
-- the state comes back beside the error too.
pub mod Keeps
use native.Mathlib.Omega.{arith}
use mathlib.Core.Path.{◌≡◌, refl, ap}
use mathlib.Core.Logic.{◌⊎◌, inl, inr}
use mathlib.Core.Bool.{Bool, true, false}
use mathlib.Core.Option.{Option, none, some}

pub data Result (E A : Type 0) : Type 0 where
  ok : A → Result E A
  err : E → Result E A

pub Result-cases :
    {E A : Type 0} (r : Result E A) → ((a : A) × (r ≡ ok a)) ⊎ ((e : E) × (r ≡ err e))
Result-cases (ok a) = inl (a, refl)
Result-cases (err e) = inr (e, refl)

abbrev pub Exec : Type 0 → Type 0 → Type 0 → Type 0
Exec S E A = S → Result E A × S

module _ {S E A : Type 0} where
  unfoldable pub pure : A → Exec S E A
  pure a s = (ok a, s)

  unfoldable pub raise : E → Exec S E A
  raise e s = (err e, s)

  unfoldable pub gets : (S → A) → Exec S E A
  gets f s = (ok (f s), s)

  unfoldable pub or_raise : Option A → E → Exec S E A
  or_raise none e s = (err e, s)
  or_raise (some a) _ s = (ok a, s)

unfoldable pub modify : {S E : Type 0} → (S → S) → Exec S E Unit
modify f s = (ok tt, f s)

unfoldable pub raise_if : {S E : Type 0} → Bool → E → Exec S E Unit
raise_if true e s = (err e, s)
raise_if false e s = (ok tt, s)

unfoldable pub continue : {S E A B : Type 0} → Result E A → (A → Exec S E B) → Exec S E B
continue (ok a) f s = f a s
continue (err e) f s = (err e, s)

infixl 5 ◌>>=◌ ◌>>◌
-- opening this opens `pure`, `raise`, `gets`, `or_raise`, `modify` and `raise_if` too
unfoldable pub ◌>>=◌ : {S E A B : Type 0} → Exec S E A → (A → Exec S E B) → Exec S E B
unfolding continue pure raise gets or_raise modify raise_if
◌>>=◌ m f s = let (r, s') = m s in continue r f s'

abbrev pub ◌>>◌ : {S E B : Type 0} → Exec S E Unit → Exec S E B → Exec S E B
m >> k = m >>= λ _. k

module _ {S E A B : Type 0} where
  continue-ok :
      (p : Result E A × S) (f : A → Exec S E B) {b : B} {t : S}
      → continue p.0 f p.1 ≡ (ok b, t)
      → (a : A) × (u : S) × (p ≡ (ok a, u)) × (f a u ≡ (ok b, t))
  unfolding continue
  continue-ok (ok a, u) f e = (a, u, refl, e)
  continue-ok (err x, u) f e = cc (ap (λ (q : Result E B × S). q.0) e)

  -- A block that succeeds has succeeded in its first step and in the rest.
  pub bind-ok :
      (m : Exec S E A) (f : A → Exec S E B) (s : S) {b : B} {t : S}
      → (m >>= f) s ≡ (ok b, t)
      → (a : A) × (u : S) × (m s ≡ (ok a, u)) × (f a u ≡ (ok b, t))
  unfolding ◌>>=◌
  bind-ok m f s e = continue-ok (m s) f e

  continue-err :
      (p : Result E A × S) (f : A → Exec S E B) {x : E} {t : S}
      → continue p.0 f p.1 ≡ (err x, t)
      → (p ≡ (err x, t)) ⊎ ((a : A) × (u : S) × (p ≡ (ok a, u)) × (f a u ≡ (err x, t)))
  unfolding continue
  continue-err (ok a, u) f e = inr (a, u, refl, e)
  continue-err (err y, u) f e = inl (ground arith)

  -- A block that raises has raised in its first step or in the rest.
  pub bind-err :
      (m : Exec S E A) (f : A → Exec S E B) (s : S) {x : E} {t : S}
      → (m >>= f) s ≡ (err x, t)
      → (m s ≡ (err x, t)) ⊎ ((a : A) × (u : S) × (m s ≡ (ok a, u)) × (f a u ≡ (err x, t)))
  unfolding ◌>>=◌
  bind-err m f s e = continue-err (m s) f e
