-- ===== src/Delegation/Registry.antt =====
-- `DelegationRegistry` of novapanda/delegate.py, over the texts and times of `Platform`.
use novapanda.Base.{
  ℕ, zero, ◌+◌, String, Bool, true, false, not, ◌&&◌, ◌||◌, Option, none, some, List, [], ◌∷◌, ◌==◌,
  leb, ltb, contains, or_else, if◌then◌else◌,
}
use novapanda.Base.Dict.{Dict, get, put}
use novapanda.Base.Int.{ℤ, pos, ◌+ℤ◌, ltb_ℤ}
use novapanda.Base.Exec.{Result, ok, err, Exec}
use novapanda.Base.Texts.{text_or}
use novapanda.Canonical.Text.{◌⋅◌}
use novapanda.Host.Hashing.{canonical_bytes}
use novapanda.Delegation.Credentials.{
  Platform, Credential, DelegationError, DelegationRegistry, Action, unsupported_delegate_version,
  empty_scope, missing_required_fields, invalid_issuer_sig, already_expired, not_yet_valid,
  ttl_exceeds_node_max, not_found, not_issuer, delegation_invalid, subject_mismatch, scope_denied,
  amount_exceeds_max, currency_mismatch, rail_not_allowed, period_quota_exceeded, invalid_time,
  unencodable,
}
use novapanda.Delegation.Periods.{period_days}

module _ (env : Platform) where
  abbrev key_of : ℕ → Option ℕ → String
  key_of now (some zero) = env.hour now
  key_of now _ = env.day now

  unfoldable pub period_key : ℕ → Option String → String
  unfolding period_days
  period_key now period =
      if text_or period "" == ""
      then env.day now
      else key_of now (period_days (env.upper (env.strip (text_or period ""))))

  -- `_parse_ts(t) <= now`, and whether that has to be asked
  abbrev is_past : ℕ → String → Result DelegationError Bool
  is_past now t = elim (env.parse_ts t) [ none ↦ err invalid_time | some x ↦ ok (leb x now) ]

  abbrev is_past_if : ℕ → Option String → Result DelegationError Bool
  is_past_if now t = if text_or t "" == "" then ok false else is_past now (text_or t "")

  abbrev is_empty : List String → Bool
  is_empty [] = true
  is_empty (_ ∷ _) = false

  abbrev or_past :
      Result DelegationError Bool → Result DelegationError Bool → Result DelegationError Bool
  or_past (err e) b = err e
  or_past (ok true) b = ok true
  or_past (ok false) b = b

  -- `get`: `some` where the credential can be used
  unfoldable pub get_delegation :
      ℕ → String → DelegationRegistry → Result DelegationError (Option Credential)
  get_delegation now delegation_id r = elim (get r.by_id delegation_id) [
    | none ↦ ok none
    | some cred ↦
        if contains delegation_id r.revoked
        then ok none
        else elim (or_past (is_past now (text_or cred.expires_at ""))
            (is_past_if now cred.constraints.expires_at)) [
              | err e ↦ err e
              | ok true ↦ ok none
              | ok false ↦ ok (some cred)
            ]
  ]

  abbrev stored : String → ℕ → Credential → Credential
  stored id now cred = record cred {
    delegation_id = some id;
    issued_at = some (or_else cred.issued_at (env.host.iso now));
  }

  abbrev keep : String → ℕ → Credential → DelegationRegistry → DelegationRegistry
  keep id now cred r = record r { by_id = put r.by_id id (stored id now cred) }

  abbrev is_incomplete : Credential → Bool
  is_incomplete cred =
      cred.issuer_agent_id == ""
      || cred.subject_agent_id == ""
      || cred.issuer_sig == ""
      || text_or cred.expires_at "" == ""

  -- the tests on the times, in the order of the code
  abbrev time_refusal : ℕ → Credential → DelegationRegistry → Option DelegationError
  time_refusal now cred r = elim (env.parse_ts (text_or cred.expires_at "")) [
    | none ↦ some invalid_time
    | some exp ↦
        if leb exp now
        then some already_expired
        else elim (env.parse_ts (text_or cred.not_before "")) [
          | none ↦
              if text_or cred.not_before "" == ""
              then (if ltb (now + r.max_ttl_seconds) exp then some ttl_exceeds_node_max else none)
              else some invalid_time
          | some nb ↦
              if not (text_or cred.not_before "" == "") && ltb now nb
              then some not_yet_valid
              else if ltb (now + r.max_ttl_seconds) exp
              then some ttl_exceeds_node_max
              else none
        ]
  ]

  abbrev signed_refusal : ℕ → Credential → DelegationRegistry → Option DelegationError
  signed_refusal now cred r = elim (canonical_bytes env.host cred.unsigned) [
    | err e ↦ some (unencodable e)
    | ok msg ↦
        if env.host.verify cred.issuer_agent_id cred.issuer_sig msg
        then time_refusal now cred r
        else some invalid_issuer_sig
  ]

  abbrev pub refusal : ℕ → Credential → DelegationRegistry → Option DelegationError
  refusal now cred r =
      if not (cred.delegate_version == "0.1")
      then some unsupported_delegate_version
      else if is_empty cred.scope
      then some empty_scope
      else if is_incomplete cred
      then some missing_required_fields
      else signed_refusal now cred r

  -- `register`, with what `uuid4` gives; the id of the credential
  unfoldable pub register : ℕ → String → Credential → Exec DelegationRegistry DelegationError String
  register now uuid cred r =
      let id = text_or cred.delegation_id ("dlg_" ⋅ uuid) in
      elim (refusal now cred r) [ some e ↦ (err e, r) | none ↦ (ok id, keep id now cred r) ]

  unfoldable pub revoke :
      (delegation_id issuer_agent_id : String) → Exec DelegationRegistry DelegationError Unit
  revoke delegation_id issuer_agent_id r = elim (get r.by_id delegation_id) [
    | none ↦ (err not_found, r)
    | some cred ↦
        if not (cred.issuer_agent_id == issuer_agent_id)
        then (err not_issuer, r)
        else (ok tt, record r { revoked = delegation_id ∷ r.revoked })
  ]

  abbrev exceeds : Option ℤ → Option ℤ → Bool
  exceeds (some a) (some m) = ltb_ℤ m a
  exceeds _ _ = false

  -- `a and b and a != b`
  abbrev is_other : Option String → Option String → Bool
  is_other a b =
      not (text_or a "" == "") && not (text_or b "" == "") && not (text_or a "" == text_or b "")

  abbrev is_off_list : Option String → List String → Bool
  is_off_list rail allow =
      not (text_or rail "" == "") && not (is_empty allow) && not (contains (text_or rail "") allow)

  -- the tests before the quota
  abbrev pub denial : Action → Credential → Option DelegationError
  denial a cred =
      if not (cred.subject_agent_id == a.subject_agent_id)
      then some subject_mismatch
      else if not (contains a.action cred.scope)
      then some scope_denied
      else if exceeds a.amount cred.constraints.max_amount
      then some amount_exceeds_max
      else if is_other a.currency cred.constraints.currency
      then some currency_mismatch
      else if is_off_list a.rail cred.constraints.rails_allowlist
      then some rail_not_allowed
      else none

  -- `bucket.get(key, 0)`, of a bucket that may not be there yet
  abbrev pub spent_in : Option (Dict ℤ) → String → ℤ
  spent_in none key = pos 0
  spent_in (some bucket) key = or_else (get bucket key) (pos 0)

  abbrev pub set_bucket : String → Dict ℤ → DelegationRegistry → DelegationRegistry
  set_bucket id bucket r = record r { period_spent = put r.period_spent id bucket }

  -- the quota of the period, with the key of the period
  unfoldable pub spend :
      (id key : String)
      → (amount max : ℤ) → Credential
      → Exec DelegationRegistry DelegationError Credential
  spend id key amount max cred r =
      let bucket = or_else (get r.period_spent id) [] in
      let spent = spent_in (get r.period_spent id) key +ℤ amount in
      if ltb_ℤ max spent
      then (err period_quota_exceeded, set_bucket id bucket r)
      else (ok cred, set_bucket id (put bucket key spent) r)

  unfoldable pub spend_if :
      ℕ
      → String
      → Option ℤ
      → Option ℤ
      → Credential
      → Exec DelegationRegistry DelegationError Credential
  unfolding period_key
  spend_if now id (some amount) (some max) cred r =
      spend id (period_key now cred.constraints.period) amount max cred r
  spend_if now id _ _ cred r = (ok cred, r)

  unfoldable pub validate_action : ℕ → Action → Exec DelegationRegistry DelegationError Credential
  unfolding get_delegation
  validate_action now a r = elim (get_delegation now a.delegation_id r) [
    | err e ↦ (err e, r)
    | ok none ↦ (err delegation_invalid, r)
    | ok (some cred) ↦ elim (denial a cred) [
      | some e ↦ (err e, r)
      | none ↦ spend_if now a.delegation_id a.amount cred.constraints.max_amount cred r
    ]
  ]
