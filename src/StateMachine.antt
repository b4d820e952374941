-- ===== src/StateMachine.antt =====
-- novapanda/state_machine.py: the states of an exchange and the one table of legal transitions.
pub mod Lifecycle
use novapanda.Base.{ℕ, ◌≡◌, Bool, true, false, ◌||◌, List, [], ◌∷◌, eqb}
use novapanda.Base.Exec.{Exec, raise_if}

pub data State : Type 0 where
  proposed contracted escrowed delivered verified : State
  settled rejected expired_refunded cancelled disputed : State

pub index : State → ℕ
index proposed = 0
index contracted = 1
index escrowed = 2
index delivered = 3
index verified = 4
index settled = 5
index rejected = 6
index expired_refunded = 7
index cancelled = 8
index disputed = 9

-- `==` on the constants
infix 50 ◌is◌
unfoldable pub ◌is◌ : State → State → Bool
unfolding index
s is t = eqb (index s) (index t)

-- `s in states`
unfoldable pub one_of : State → List State → Bool
unfolding ◌is◌
one_of s [] = false
one_of s (t ∷ ts) = s is t || one_of s ts

unfoldable pub terminal_states : List State
terminal_states = settled ∷ rejected ∷ expired_refunded ∷ cancelled ∷ []

unfoldable pub transitions : State → List State
transitions proposed = contracted ∷ cancelled ∷ expired_refunded ∷ []
transitions contracted = escrowed ∷ cancelled ∷ expired_refunded ∷ []
transitions escrowed = delivered ∷ expired_refunded ∷ cancelled ∷ []
transitions delivered = verified ∷ rejected ∷ expired_refunded ∷ []
transitions verified = settled ∷ disputed ∷ expired_refunded ∷ []
transitions disputed = settled ∷ rejected ∷ []
transitions settled = []
transitions rejected = []
transitions expired_refunded = []
transitions cancelled = []

-- `state in TERMINAL_STATES`
unfoldable pub is_terminal : State → Bool
unfolding terminal_states one_of
is_terminal s = one_of s terminal_states

unfoldable pub can_transition : State → State → Bool
unfolding transitions one_of
can_transition src dst = one_of dst (transitions src)
