-- ===== src/Delegation/Outcomes.antt =====
-- How `validate_action` of novapanda/delegate.py ends: before the quota, or in it.
use novapanda.Base.{ℕ, ◌≡◌, ◌⊎◌, inl, inr, refl, ap, ◌∙◌, Option-cases}
use novapanda.Base.Exec.{ok, err, Result-cases}
use novapanda.Delegation.Credentials.{
  Platform, Credential, DelegationError, DelegationRegistry, Action, delegation_invalid,
}
use novapanda.Delegation.Registry.{get_delegation, denial, spend_if, validate_action}

module _ (env : Platform) (now : ℕ) (a : Action) (r : DelegationRegistry) where
  -- An action is refused and nothing is written, or the quota of a credential decides.
  pub validate_action-cases :
      ((x : DelegationError) × (validate_action env now a r ≡ (err x, r)))
      ⊎ ((cred : Credential) × (validate_action env now a r
            ≡ spend_if env now a.delegation_id a.amount cred.constraints.max_amount cred r))
  unfolding validate_action
  validate_action-cases = elim (Result-cases (get_delegation env now a.delegation_id r)) [
    | inr (x, e) ↦ inl (x, rw (e, validate_action) refl)
    | inl (found, e) ↦ elim (Option-cases found) [
      | inl f ↦ inl (delegation_invalid, rw (e ∙ ap ok f, validate_action) refl)
      | inr (cred, f) ↦ elim (Option-cases (denial env a cred)) [
        | inr (x, d) ↦ inl (x, rw (e ∙ ap ok f, d, validate_action) refl)
        | inl d ↦ inr (cred, rw (e ∙ ap ok f, d, validate_action) refl)
      ]
    ]
  ]
