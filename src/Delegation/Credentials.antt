-- ===== src/Delegation/Credentials.antt =====
-- The data of novapanda/delegate.py. A time is in seconds.
use novapanda.Base.{ℕ, String, Option, List}
use novapanda.Base.Dict.{Dict}
use novapanda.Base.Int.{ℤ}
use novapanda.Canonical.Value.{Json}
use novapanda.Host.Params.{Host}
use novapanda.Host.Hashing.{CodeError}

-- `constraints` of a credential, as far as they are read; one that is absent reads as `none`.
pub record Constraints : Type 0 where
  pub max_amount : Option ℤ
  pub currency : Option String
  pub rails_allowlist : List String
  pub period : Option String
  pub expires_at : Option String

-- A credential: the dict without `issuer_sig` and `revoked`, and what is read of it.
pub record Credential : Type 0 where
  pub unsigned : Json
  pub delegate_version : String
  pub delegation_id : Option String
  pub issuer_agent_id : String
  pub subject_agent_id : String
  pub scope : List String
  pub constraints : Constraints
  pub not_before : Option String
  pub expires_at : Option String
  pub issued_at : Option String
  pub issuer_sig : String

pub data DelegationError : Type 0 where
  unsupported_delegate_version empty_scope missing_required_fields invalid_issuer_sig :
      DelegationError
  already_expired not_yet_valid ttl_exceeds_node_max not_found not_issuer : DelegationError
  delegation_invalid subject_mismatch scope_denied amount_exceeds_max currency_mismatch :
      DelegationError
  rail_not_allowed period_quota_exceeded invalid_time : DelegationError
  unencodable : CodeError → DelegationError

pub record DelegationRegistry : Type 0 where
  pub max_ttl_seconds : ℕ
  pub by_id : Dict Credential
  pub revoked : List String
  pub period_spent : Dict (Dict ℤ)

-- the arguments of `validate_action`
pub record Action : Type 0 where
  pub delegation_id : String
  pub subject_agent_id : String
  pub action : String
  pub amount : Option ℤ
  pub currency : Option String
  pub rail : Option String

-- What the registry takes from its host and from Python's library: `str.strip`, `str.upper`, `strftime`
-- to the day and to the hour, and `datetime.fromisoformat`.
pub record Platform : Type 0 where
  pub host : Host
  pub strip : String → String
  pub upper : String → String
  pub day : ℕ → String
  pub hour : ℕ → String
  pub parse_ts : String → Option ℕ
