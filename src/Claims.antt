-- ===== src/Claims.antt =====
-- `ClaimRegistry` of novapanda/node/claim_registry.py: claims on what a node owes, with their holders.
-- `str.strip` is a parameter; a written file reads back as what was written.
pub mod Outcome
pub mod Provenance
pub mod Closed
pub mod Durable
pub mod Mock
use text.Mathlib.Text.{starts_with}
use novapanda.Base.{
  ℕ, String, Bool, true, false, not, ◌&&◌, ◌||◌, Option, none, some, List, [], ◌∷◌, ◌++◌, ◌==◌,
  if◌then◌else◌,
}
use novapanda.Base.Dict.{Dict, get, put, values}
use novapanda.Base.Int.{ℤ, pos, ltb_ℤ}
use novapanda.Base.Exec.{Result, ok, err, Exec}
use novapanda.Base.Texts.{nonempty_or}
use novapanda.Canonical.Value.{str, obj, field, done}
use novapanda.Host.Params.{Host}
use novapanda.Host.Hashing.{CodeError}
use novapanda.Canonical.Dump.{canonical}
use novapanda.Host.Hashing.{canonical_bytes}

-- `expired` and `frozen` are statuses that no operation gives.
pub data Status : Type 0 where
  open' reserved spent released expired frozen : Status

abbrev pub is_open : Status → Bool
is_open open' = true
is_open _ = false

abbrev pub is_reserved : Status → Bool
is_reserved reserved = true
is_reserved _ = false

-- An item of `lineage`.
pub record Link : Type 0 where
  pub sender : String
  pub recipient : String
  pub at : String
  pub nonce : String
  pub sig : String

pub record Claim : Type 0 where
  pub claim_id : String
  pub vdc_id : String
  pub rail : String
  pub holder_agent_id : String
  pub amount : ℤ
  pub currency : String
  pub status : Status
  pub issued_at : String
  pub expires_at : Option String
  pub lineage : List Link
  pub reserved_for : Option String

-- `_by_id`, and the file where the registry has a path: the claims that were written last.
pub record Claims : Type 0 where
  pub by_id : Dict Claim
  pub file : Option (List Claim)

-- `ValueError`; `unencodable` is what `canonical_bytes` raises
pub data ClaimError : Type 0 where
  vdc_anchor_required amount_negative holder_must_be_agent_id not_found not_open : ClaimError
  invalid_to_agent_id invalid_assignment_signature not_reserved cannot_release : ClaimError
  unencodable : CodeError → ClaimError

-- `_persist`
unfoldable pub persist : Claims → Claims
persist s = elim s.file [ none ↦ s | some old ↦ record s { file = some (values s.by_id) } ]

-- `_load`, of what the file holds
unfoldable pub load_all : List Claim → Dict Claim → Dict Claim
load_all [] d = d
load_all (c ∷ cs) d = load_all cs (put d c.claim_id c)

abbrev pub is_agent_id : String → Bool
is_agent_id s = starts_with s "ed25519:"

-- A record is mutated in place, so a change is a change of the registry.
unfoldable pub store_claim : String → Claim → Claims → Claims
unfolding persist
store_claim k c s = persist (record s { by_id = put s.by_id k c })

abbrev pub Call : Type 0
Call = Exec Claims ClaimError Claim

-- `_require`, then the rest of the method.
unfoldable pub with_claim : String → (Claim → Result ClaimError Claim) → Call
with_claim k change s = elim (get s.by_id k) [
  | none ↦ (err not_found, s)
  | some c ↦ elim (change c) [ err e ↦ (err e, s) | ok c' ↦ (ok c', store_claim k c' s) ]
]

unfoldable pub reserve_claim : String → Claim → Result ClaimError Claim
reserve_claim exchange_id c =
    if is_open c.status
    then ok (record c { status = reserved; reserved_for = some exchange_id })
    else err not_open

unfoldable pub capture_claim : Claim → Result ClaimError Claim
capture_claim c =
    if is_reserved c.status then ok (record c { status = spent }) else err not_reserved

unfoldable pub release_claim : Claim → Result ClaimError Claim
release_claim c =
    if is_open c.status || is_reserved c.status
    then ok (record c { status = released; reserved_for = none })
    else err cannot_release

unfoldable pub redeem_claim : Claim → Result ClaimError Claim
redeem_claim c = if is_open c.status then ok (record c { status = spent }) else err not_open

-- What a client asks of the registry. `id` and `at` of `issue` are the new id and `_now()`.
pub data ClaimCall : Type 0 where
  issue : (id at vdc_id : String) → ℤ → (currency holder rail : String) → ClaimCall
  assign : (claim_id to_agent_id signature nonce at : String) → ClaimCall
  reserve : (claim_id for_exchange_id : String) → ClaimCall
  capture release redeem : (claim_id : String) → ClaimCall

-- What happens to the registry: a call of a client, or `clear`.
pub data ClaimStep : Type 0 where
  asked : ClaimCall → ClaimStep
  cleared : ClaimStep

abbrev pub new_claim : (id at vdc_id : String) → ℤ → (currency holder rail : String) → Claim
new_claim id at vdc_id amount currency holder rail = record {
  claim_id = id;
  vdc_id = vdc_id;
  rail = nonempty_or rail "mock";
  holder_agent_id = holder;
  amount = amount;
  currency = nonempty_or currency "USD";
  status = open';
  issued_at = at;
  expires_at = none;
  lineage = [];
  reserved_for = none;
}

abbrev pub moved : String → String → String → String → Claim → Claim
moved to_agent_id signature nonce at c = record c {
  lineage =
      c.lineage
      ++ record {
        sender = c.holder_agent_id;
        recipient = to_agent_id;
        at = at;
        nonce = nonce;
        sig = signature;
      }
        ∷ [];
  holder_agent_id = to_agent_id;
}

module _ (h : Host) where
  unfoldable pub assignment_bytes :
      (claim_id to_agent_id nonce at : String) → Result CodeError String
  assignment_bytes claim_id to_agent_id nonce at = canonical_bytes h (
      obj (
        field "type" (str "np_claim_assignment") (
          field "claim_version" (str "0.1") (
            field "claim_id" (str claim_id) (
              field "to_agent_id" (str to_agent_id)
                (field "nonce" (str nonce) (field "at" (str at) done)))))))

  unfoldable pub assign_claim :
      (claim_id to_agent_id signature nonce at : String) → Claim → Result ClaimError Claim
  assign_claim claim_id to_agent_id signature nonce at c =
      if not (is_open c.status)
      then err not_open
      else if not (is_agent_id to_agent_id)
      then err invalid_to_agent_id
      else elim (assignment_bytes claim_id to_agent_id nonce at) [
        | err e ↦ err (unencodable e)
        | ok msg ↦
            if h.verify c.holder_agent_id signature msg
            then ok (moved to_agent_id signature nonce at c)
            else err invalid_assignment_signature
      ]

module _ (strip : String → String) where
  unfoldable pub issue_claim : (id at vdc_id : String) → ℤ → (currency holder rail : String) → Call
  issue_claim id at vdc_id amount currency holder rail s =
      if vdc_id == "" || strip vdc_id == ""
      then (err vdc_anchor_required, s)
      else if ltb_ℤ amount (pos 0)
      then (err amount_negative, s)
      else if not (is_agent_id holder)
      then (err holder_must_be_agent_id, s)
      else (
        ok (new_claim id at (strip vdc_id) amount currency holder rail),
        store_claim id (new_claim id at (strip vdc_id) amount currency holder rail) s,
      )

unfoldable pub clear : Claims → Claims
unfolding persist
clear s = persist (record s { by_id = [] })

module _ (h : Host) (strip : String → String) where
  unfoldable pub serve : ClaimCall → Call
  serve (issue id at vdc_id amount currency holder rail) =
      issue_claim strip id at vdc_id amount currency holder rail
  serve (assign k to_agent_id signature nonce at) =
      with_claim k (assign_claim h k to_agent_id signature nonce at)
  serve (reserve k exchange_id) = with_claim k (reserve_claim exchange_id)
  serve (capture k) = with_claim k capture_claim
  serve (release k) = with_claim k release_claim
  serve (redeem k) = with_claim k redeem_claim

  unfoldable pub take_step : ClaimStep → Claims → Claims
  unfolding serve clear
  take_step (asked q) s = (serve q s).1
  take_step cleared s = clear s

  -- The registry after some steps, failing calls included.
  unfoldable pub serve_all : List ClaimStep → Claims → Claims
  unfolding take_step
  serve_all [] s = s
  serve_all (q ∷ qs) s = serve_all qs (take_step q s)
