-- ===== src/StateMachine/Lifecycle.antt =====
-- What the transition table says of the whole life of an exchange.
use mathlib.Core.Path.{subst}
use novapanda.Base.{◌⊎◌, ◌↔◌, ◌<◌, true, false, refl, inl, inr, ℕ, ◌+◌, ◌≤◌, ◌≡◌, arith}
use novapanda.StateMachine.{
  State, proposed, contracted, escrowed, delivered, verified, settled, rejected, expired_refunded,
  cancelled, disputed, ◌is◌, is_terminal, can_transition,
}

pub State-discrete : Discrete State
State-discrete = hlevel

pub is-eq : (s t : State) → (s is t) ≡ true → s ≡ t
unfolding ◌is◌
is-eq proposed t h = ground arith
is-eq contracted t h = ground arith
is-eq escrowed t h = ground arith
is-eq delivered t h = ground arith
is-eq verified t h = ground arith
is-eq settled t h = ground arith
is-eq rejected t h = ground arith
is-eq expired_refunded t h = ground arith
is-eq cancelled t h = ground arith
is-eq disputed t h = ground arith

-- A life of an exchange: its states from the first to the last, one legal transition at a time.
-- The number counts the transitions.
pub data Life (s : State) : State → ℕ → Type 0 where
  born : Life s s 0
  step : {t u : State} {n : ℕ} → Life s t n → can_transition t u ≡ true → Life s u (n + 1)

pub Life-trans : {s t u : State} {m n : ℕ} → Life s t m → Life t u n → Life s u (m + n)
Life-trans {s} {t} {u} {m} l born = subst (λ k. Life s t k) (omega arith) l
Life-trans {s} {t} {u} {m} l (step {n = n} k h) =
    subst (λ i. Life s u i) (omega arith) (step (Life-trans l k) h)

-- How many transitions an exchange in a state has behind it, at least.
abbrev pub depth : State → ℕ
depth proposed = 0
depth contracted = 1
depth escrowed = 2
depth delivered = 3
depth verified = 4
depth disputed = 5
depth settled = 6
depth rejected = 6
depth expired_refunded = 6
depth cancelled = 6

depth-can_transition : (s t : State) → can_transition s t ≡ true → depth s + 1 ≤ depth t
unfolding can_transition
depth-can_transition proposed t h = ground arith
depth-can_transition _ t h = ground arith

depth-Life : {s t : State} {n : ℕ} → Life s t n → depth s + n ≤ depth t
depth-Life born = omega arith
depth-Life (step {t = t} {u = u} l h) = omega (arith, depth-Life l, depth-can_transition t u h)

depth-le : (s : State) → depth s ≤ 6
depth-le s = ground arith

-- From any state at most six transitions are possible, however they are chosen: no exchange goes
-- round in a circle.
pub six_transitions_at_most : {s t : State} {n : ℕ} → Life s t n → n ≤ 6
six_transitions_at_most {s} {t} l = omega (arith, depth-Life l, depth-le t)

before_settled : (s : State) → can_transition s settled ≡ true → (s ≡ verified) ⊎ (s ≡ disputed)
unfolding can_transition
before_settled proposed h = ground arith
before_settled _ h = ground arith

before_disputed : (s : State) → can_transition s disputed ≡ true → s ≡ verified
unfolding can_transition
before_disputed proposed h = ground arith
before_disputed _ h = ground arith

-- Where a life that has come to `disputed` or `settled` passed `verified`.
module _ {s : State} (early : depth s ≤ 3) where
  disputed-was-verified :
      {t : State} {n : ℕ} → Life s t n → t ≡ disputed → (m : ℕ) × Life s verified m × (m < n)
  disputed-was-verified born e = absurd (ground arith)
  disputed-was-verified (step {t = t} {u = u} {n = n} l h) e =
      (n, subst (λ x. Life s x n) (before_disputed t (rw e at h)) l, omega arith)

  -- An exchange that is settled and began before verification has been verified on its way.
  pub settled_was_verified :
      {t : State} {n : ℕ} → Life s t n → t ≡ settled → (m : ℕ) × Life s verified m × (m < n)
  settled_was_verified born e = absurd (ground arith)
  settled_was_verified (step {t = t} {u = u} {n = n} l h) e = elim (before_settled t (rw e at h)) [
    | inl v ↦ (n, subst (λ x. Life s x n) v l, omega arith)
    | inr d ↦ let (m, k, lt) = disputed-was-verified l d in (m, k, omega arith)
  ]

-- A state is terminal exactly when no transition leaves it.
pub terminal_iff_stuck :
    (s : State) → (is_terminal s ≡ true) ↔ ((t : State) → can_transition s t ≡ false)
unfolding is_terminal can_transition
terminal_iff_stuck proposed = (λ h t. ground arith, λ h. cc (h cancelled))
terminal_iff_stuck contracted = (λ h t. ground arith, λ h. cc (h cancelled))
terminal_iff_stuck escrowed = (λ h t. ground arith, λ h. cc (h cancelled))
terminal_iff_stuck delivered = (λ h t. ground arith, λ h. cc (h verified))
terminal_iff_stuck verified = (λ h t. ground arith, λ h. cc (h settled))
terminal_iff_stuck disputed = (λ h t. ground arith, λ h. cc (h settled))
terminal_iff_stuck settled = (λ h t. refl, λ h. refl)
terminal_iff_stuck rejected = (λ h t. refl, λ h. refl)
terminal_iff_stuck expired_refunded = (λ h t. refl, λ h. refl)
terminal_iff_stuck cancelled = (λ h t. refl, λ h. refl)
