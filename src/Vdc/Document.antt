-- ===== src/Vdc/Document.antt =====
-- The fields of a VDC, `build_vdc`, and what each party signs. A VDC is the dict of the schema; its
-- `state` is never written into bytes, so it is the engine's enumeration.
use novapanda.Base.{
  String, Bool, ◌||◌, Option, none, some, ◌==◌, if◌then◌else◌, or_else, contains, List, [], ◌∷◌,
}
use novapanda.Base.Int.{ℤ}
use novapanda.Base.Exec.{Result, ok, err}
use novapanda.Canonical.Value.{Json, int, str, obj, Fields, done, field}
use novapanda.Host.Params.{Host}
use novapanda.Host.Hashing.{CodeError, canonical_bytes, canonical_cbor_bytes}
use novapanda.StateMachine.{State}

pub record Signatures : Type 0 where
  pub encoding : Option String
  pub provider_sig : Option String
  pub client_sig : Option String

pub record Vdc : Type 0 where
  pub vdc_version : String
  pub vdc_id : String
  pub client : String
  pub provider : String
  pub resource_type : String
  pub quantity : ℤ
  pub result_hash : String
  pub rule_id : String
  pub evidence : Json
  pub state : State
  pub idempotency_key : String
  pub nonce : String
  pub prev_hash : String
  pub created_at : String
  pub signatures : Signatures

-- The arguments of `build_vdc` that the engine passes; the others have their defaults there.
pub record Draft : Type 0 where
  pub client : String
  pub provider : String
  pub resource_type : String
  pub quantity : ℤ
  pub result_hash : String
  pub rule_id : String
  pub evidence_level : String
  pub started_at : String
  pub finished_at : String
  pub idempotency_key : String
  pub nonce : String
  pub state : State

abbrev pub unsigned : Signatures
unsigned = record { encoding = none; provider_sig = none; client_sig = none }

abbrev pub evidence_levels : List String
evidence_levels = "self_reported" ∷ "dual_signed" ∷ "metered" ∷ "third_party_witnessed" ∷ []

-- `ValueError`s
pub data VdcError : Type 0 where
  unknown_level unknown_encoding wrong_party provider_missing : VdcError
  code : CodeError → VdcError

-- `vdc_id` is `new_id()`, `now` is `now_iso()`
unfoldable pub build_vdc : String → String → Draft → Result VdcError Vdc
unfolding contains
build_vdc vdc_id now d =
    if contains d.evidence_level evidence_levels
    then ok (record {
      vdc_version = "0.1";
      vdc_id = vdc_id;
      client = d.client;
      provider = d.provider;
      resource_type = d.resource_type;
      quantity = d.quantity;
      result_hash = d.result_hash;
      rule_id = d.rule_id;
      evidence = obj (
          field "level" (str d.evidence_level)
            (field "started_at" (str d.started_at) (field "finished_at" (str d.finished_at) done)));
      state = d.state;
      idempotency_key = d.idempotency_key;
      nonce = d.nonce;
      prev_hash = "GENESIS";
      created_at = now;
      signatures = unsigned;
    })
    else err unknown_level

-- The members that both parties sign, before those of `rest`.
unfoldable pub signed_fields : Vdc → Fields → Fields
signed_fields v rest = field "vdc_version" (str v.vdc_version) (
    field "vdc_id" (str v.vdc_id) (
      field "parties" (obj (field "client" (str v.client) (field "provider" (str v.provider) done)))
        (field "resource_type" (str v.resource_type) (
          field "quantity" (int v.quantity) (
            field "result_hash" (str v.result_hash) (
              field "rule_id" (str v.rule_id) (
                field "evidence" v.evidence (
                  field "idempotency_key" (str v.idempotency_key) (
                    field "nonce" (str v.nonce) (
                      field "prev_hash" (str v.prev_hash)
                        (field "created_at" (str v.created_at) rest)))))))))))

unfoldable pub provider_signing_payload : Vdc → Json
provider_signing_payload v = obj (signed_fields v done)

abbrev optional : String → Option String → Fields → Fields
optional k none fs = fs
optional k (some s) fs = field k (str s) fs

-- `signatures` without `client_sig`
abbrev provider_part : Signatures → Json
provider_part s =
    obj (
      optional "provider_payload_encoding" s.encoding (optional "provider_sig" s.provider_sig done))

unfoldable pub client_signing_payload : Vdc → Json
client_signing_payload v =
    obj (signed_fields v (field "signatures" (provider_part v.signatures) done))

abbrev pub known_encoding : String → Bool
known_encoding e = e == "json" || e == "cbor"

unfoldable pub provider_payload_encoding : Vdc → String
provider_payload_encoding v =
    let e = or_else v.signatures.encoding "json" in if known_encoding e then e else "json"

module _ (h : Host) where
  abbrev pub coded : Result CodeError String → Result VdcError String
  coded (ok s) = ok s
  coded (err e) = err (code e)

  -- `provider_payload_bytes` with its `encoding` given
  unfoldable pub provider_payload_bytes : Vdc → String → Result VdcError String
  provider_payload_bytes v e =
      if e == "cbor"
      then coded (canonical_cbor_bytes h (provider_signing_payload v))
      else if e == "json"
      then coded (canonical_bytes h (provider_signing_payload v))
      else err unknown_encoding

  unfoldable pub client_signing_bytes : Vdc → Result VdcError String
  client_signing_bytes v = coded (canonical_bytes h (client_signing_payload v))
