-- ===== src/Delegation/Revoked.antt =====
-- `revoke` of novapanda/delegate.py: what is revoked stays revoked.
use novapanda.Base.{
  ℕ, String, Option, true, none, some, List, [], ◌∷◌, ◌≡◌, inl, inr, refl, arith, contains, eq_refl,
  Option-cases,
}
use novapanda.Base.Dict.{get}
use novapanda.Base.Int.{ℤ}
use novapanda.Base.Exec.{ok, err}
use novapanda.Delegation.Credentials.{
  Platform, Credential, DelegationRegistry, Action, delegation_invalid,
}
use novapanda.Delegation.Outcomes.{validate_action-cases}
use novapanda.Delegation.Registry.{
  get_delegation, register, revoke, spend, spend_if, validate_action, refusal,
}
use novapanda.Delegation.Quota.{
  DelegationCall, register_call, revoke_call, action_call, validate, serve, serve_all,
}

-- The delegation is in `_revoked`.
abbrev IsRevoked : String → DelegationRegistry → Type 0
IsRevoked id r = contains id r.revoked ≡ true

module _ (env : Platform) where
  spend_if-revoked :
      (now : ℕ) (id : String) (amount max : Option ℤ) (cred : Credential) (r : DelegationRegistry)
      → (spend_if env now id amount max cred r).1.revoked ≡ r.revoked
  unfolding spend_if spend
  spend_if-revoked now id none max cred r = refl
  spend_if-revoked now id (some v) none cred r = refl
  spend_if-revoked now id (some v) (some m) cred r = ground arith

  validate-revoked :
      (now : ℕ) (a : Action) (r : DelegationRegistry) → (validate env now a r).1.revoked ≡ r.revoked
  validate-revoked now a r = elim (validate_action-cases env now a r) [
    | inl (x, q) ↦ rw q refl
    | inr (cred, q) ↦
        rw q (spend_if-revoked now a.delegation_id a.amount cred.constraints.max_amount cred r)
  ]

  register-revoked :
      (now : ℕ) (uuid : String) (cred : Credential) (r : DelegationRegistry)
      → (register env now uuid cred r).1.revoked ≡ r.revoked
  unfolding register
  register-revoked now uuid cred r = elim (Option-cases (refusal env now cred r)) [
    | inl e ↦ rw (e, register) refl
    | inr (x, e) ↦ rw (e, register) refl
  ]

  serve-IsRevoked :
      (id : String) (c : DelegationCall) (r : DelegationRegistry)
      → IsRevoked id r
      → IsRevoked id (serve env c r)
  unfolding serve revoke contains
  serve-IsRevoked id (register_call now uuid cred) r i = rw (register-revoked now uuid cred r) i
  serve-IsRevoked id (revoke_call k issuer) r i = ground (arith, i)
  serve-IsRevoked id (action_call now a) r i = rw (validate-revoked now a r) i

  serve_all-IsRevoked :
      (id : String) (cs : List DelegationCall) (r : DelegationRegistry)
      → IsRevoked id r
      → IsRevoked id (serve_all env cs r)
  unfolding serve_all
  serve_all-IsRevoked id [] r i = i
  serve_all-IsRevoked id (c ∷ cs) r i =
      serve_all-IsRevoked id cs (serve env c r) (serve-IsRevoked id c r i)

  revoke-IsRevoked :
      (id issuer : String) (r : DelegationRegistry)
      → (revoke env id issuer r).0 ≡ ok tt
      → IsRevoked id (revoke env id issuer r).1
  unfolding revoke contains
  revoke-IsRevoked id issuer r e = ground (arith, e, eq_refl id)

  refused :
      (now : ℕ) (a : Action) (r : DelegationRegistry)
      → IsRevoked a.delegation_id r
      → validate env now a r ≡ (err delegation_invalid, r)
  unfolding validate_action get_delegation
  refused now a r i = elim (Option-cases (get r.by_id a.delegation_id)) [
    | inl e ↦ rw (e, validate_action, get_delegation) refl
    | inr (cred, e) ↦ rw (e, i, validate_action, get_delegation) refl
  ]

  -- Once revoke has returned, whatever calls follow, at whatever times, a new registration under the
  -- same id included: validate_action refuses every action on the delegation as delegation_invalid and
  -- leaves the registry as it is.
  pub revoke-refuses :
      (id issuer : String) (r : DelegationRegistry) (cs : List DelegationCall) (now : ℕ)
      (a : Action)
      → (revoke env id issuer r).0 ≡ ok tt
      → a.delegation_id ≡ id
      → validate env now a (serve_all env cs (revoke env id issuer r).1)
        ≡ (err delegation_invalid, serve_all env cs (revoke env id issuer r).1)
  revoke-refuses id issuer r cs now a e same =
      let t = (revoke env id issuer r).1 in
      refused now a (serve_all env cs t)
        (rw same (serve_all-IsRevoked id cs t (revoke-IsRevoked id issuer r e)))
