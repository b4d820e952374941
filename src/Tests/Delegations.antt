-- ===== src/Tests/Delegations.antt =====
-- The quota of a delegation, at a concrete run.
use novapanda.Base.{ℕ, String, Option, none, some, List, [], ◌∷◌, ◌≡◌, refl, contains}
use novapanda.Base.Int.{pos, ◌+ℤ◌}
use novapanda.Base.Dict.{get, put}
use novapanda.Base.Exec.{ok, err}
use novapanda.Canonical.Value.{null}
use novapanda.Canonical.Dump.{normalize, canonical, dumps}
use novapanda.Tests.Scene.{toy_host}
use novapanda.Delegation.Credentials.{
  Platform, Credential, Action, DelegationRegistry, delegation_invalid,
}
use novapanda.Delegation.Periods.{digits_from, hours_match, period_days}
use novapanda.Delegation.Registry.{
  period_key, get_delegation, register, revoke, spend, spend_if, validate_action,
}
use novapanda.Delegation.Quota.{
  DelegationCall, register_call, action_call, new_registry, validate, serve, serve_all,
}
use novapanda.Delegation.Revoked.{revoke-refuses}

abbrev same : String → String
same s = s

abbrev day : ℕ → String
day t = "today"

abbrev hour : ℕ → String
hour t = "now"

abbrev parse_ts : String → Option ℕ
parse_ts s = some 100

abbrev platform : Platform
platform = record {
  host = toy_host;
  strip = same;
  upper = same;
  day = day;
  hour = hour;
  parse_ts = parse_ts;
}

abbrev credential : Credential
credential = record {
  unsigned = null;
  delegate_version = "0.1";
  delegation_id = some "d";
  issuer_agent_id = "i";
  subject_agent_id = "s";
  scope = "pay" ∷ [];
  constraints = record {
    max_amount = some (pos 10);
    currency = none;
    rails_allowlist = [];
    period = none;
    expires_at = none;
  };
  not_before = none;
  expires_at = some "t";
  issued_at = some "t";
  issuer_sig = "signed";
}

abbrev four : Action
four = record {
  delegation_id = "d";
  subject_agent_id = "s";
  action = "pay";
  amount = some (pos 4);
  currency = none;
  rail = none;
}

abbrev calls : List DelegationCall
calls = register_call 1 "u" credential ∷ action_call 2 four ∷ []

abbrev paid_once : DelegationRegistry
paid_once = serve_all platform calls (new_registry 86400)

-- The issuer revokes the delegation, and registers the credential again.
abbrev afterwards : DelegationRegistry
afterwards =
    serve_all platform (register_call 4 "u" credential ∷ []) (revoke platform "d" "i" paid_once).1

issuer_revokes : (revoke platform "d" "i" paid_once).0 ≡ ok tt
unfolding revoke validate_action serve_all serve register get_delegation spend_if spend period_key
    period_days digits_from hours_match canonical dumps normalize get put contains ◌+ℤ◌
issuer_revokes = refl

revoke-refuses_example : validate platform 5 four afterwards ≡ (err delegation_invalid, afterwards)
revoke-refuses_example =
    revoke-refuses platform "d" "i" paid_once (register_call 4 "u" credential ∷ []) 5 four
      issuer_revokes refl
