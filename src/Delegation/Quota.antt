-- ===== src/Delegation/Quota.antt =====
-- What `validate_action` of novapanda/delegate.py lets through in a period.
use novapanda.Base.{ℕ, String, Bool, true, ◌&&◌, Option, some, List, [], ◌∷◌, ◌==◌, ◌≡◌, arith}
use novapanda.Base.Dict.{get}
use novapanda.Base.Int.{ℤ, pos, ◌+ℤ◌, +ℤ_parts, eq_of_parts}
use novapanda.Base.Exec.{Result, ok, err}
use novapanda.Delegation.Credentials.{
  Platform, Credential, DelegationError, DelegationRegistry, Action,
}
use novapanda.Delegation.Registry.{period_key, register, revoke, spent_in, validate_action}

pub plus_zero : (z : ℤ) → z +ℤ pos 0 ≡ z
plus_zero z = eq_of_parts (z +ℤ pos 0) z (omega (arith, +ℤ_parts z (pos 0)))

pub plus_assoc : (a b c : ℤ) → a +ℤ b +ℤ c ≡ a +ℤ (b +ℤ c)
plus_assoc a b c =
    eq_of_parts (a +ℤ b +ℤ c) (a +ℤ (b +ℤ c))
      (omega (arith, +ℤ_parts (a +ℤ b) c, +ℤ_parts a b, +ℤ_parts a (b +ℤ c), +ℤ_parts b c))

-- A call of the registry, at its time; `uuid` is what `uuid4` gives in it.
pub data DelegationCall : Type 0 where
  register_call : (now : ℕ) (uuid : String) → Credential → DelegationCall
  revoke_call : (delegation_id issuer_agent_id : String) → DelegationCall
  action_call : (now : ℕ) → Action → DelegationCall

abbrev pub new_registry : ℕ → DelegationRegistry
new_registry ttl = record { max_ttl_seconds = ttl; by_id = []; revoked = []; period_spent = [] }

module _ (env : Platform) where
  abbrev pub validate :
      ℕ → Action → DelegationRegistry → Result DelegationError Credential × DelegationRegistry
  validate = validate_action env

  abbrev pub key_at : ℕ → Credential → String
  key_at now cred = period_key env now cred.constraints.period

  -- what is noted as spent of a delegation in a period
  abbrev pub spent_at : (id key : String) → DelegationRegistry → ℤ
  spent_at id key r = spent_in env (get r.period_spent id) key

  abbrev pub charge_if : Bool → Option ℤ → Option ℤ → ℤ
  charge_if true (some amount) (some max) = amount
  charge_if _ _ _ = pos 0

  -- The amount of an action that was let through, if it is on the delegation, in the period, and its
  -- credential has a maximum.
  abbrev pub charge_of : (id key : String) → ℕ → Action → Result DelegationError Credential → ℤ
  charge_of id key now a (err e) = pos 0
  charge_of id key now a (ok cred) =
      charge_if (a.delegation_id == id && key_at now cred == key) a.amount
        cred.constraints.max_amount

  abbrev pub charge : (id key : String) → DelegationCall → DelegationRegistry → ℤ
  charge id key (action_call now a) r = charge_of id key now a (validate now a r).0
  charge id key _ r = pos 0

  unfoldable pub serve : DelegationCall → DelegationRegistry → DelegationRegistry
  serve (register_call now uuid cred) r = (register env now uuid cred r).1
  serve (revoke_call delegation_id issuer_agent_id) r =
      (revoke env delegation_id issuer_agent_id r).1
  serve (action_call now a) r = (validate now a r).1

  unfoldable pub serve_all : List DelegationCall → DelegationRegistry → DelegationRegistry
  serve_all [] r = r
  serve_all (c ∷ cs) r = serve_all cs (serve c r)

  -- The sum of what was let through in some calls, under credentials with a maximum: like the code, it
  -- does not count what a credential without one let through.
  unfoldable pub let_through : (id key : String) → List DelegationCall → DelegationRegistry → ℤ
  unfolding serve
  let_through id key [] r = pos 0
  let_through id key (c ∷ cs) r = charge id key c r +ℤ let_through id key cs (serve c r)
