-- ===== src/Exchange/Fields.antt =====
-- The dataclass `Exchange` of novapanda/exchange.py and the dicts that it holds.
use novapanda.Base.{ℕ, String, Bool, Option}
use novapanda.Base.Int.{ℤ}
use novapanda.Base.Dict.{Dict}
use novapanda.Canonical.Value.{Json}
use novapanda.StateMachine.{State}
use novapanda.Settlement.Contract.{Receipt, SettlementError}
use novapanda.Vdc.Document.{Vdc}

pub record Price : Type 0 where
  pub amount : ℤ
  pub currency : String

pub record Ack : Type 0 where
  pub signature : String
  pub at : String

pub record Binding : Type 0 where
  pub rail : String
  pub chosen_at : String

pub data Action : Type 0 where
  settle refund : Action

pub data Progress : Type 0 where
  pending finished : Progress

-- `settlement_intent`; the program calls `finished` "done"
pub record Intent : Type 0 where
  pub action : Action
  pub handle : String
  pub status : Progress
  pub last_error : Option SettlementError

-- What a verifier returns: the decision and the rest of its report.
pub record Verdict : Type 0 where
  pub passed : Bool
  pub report : Json

-- `verify_result`: the verdict with `replay_inputs_ref`, whose `kind` is "inline"
pub record VerifyResult : Type 0 where
  pub passed : Bool
  pub report : Json
  pub exchange_id : String
  pub rule_id : String
  pub deliverable_ref : String
  pub schema_inline : Option Json

pub record Rule : Type 0 where
  pub rule_id : Option String
  pub schema : Option Json

pub record DisputeInfo : Type 0 where
  pub by : Option String
  pub reason : Option String
  pub opened_at : Option String
  pub resolution : Option String
  pub resolver : Option String
  pub note : Option String
  pub resolved_at : Option String

-- A `deliverable` of `null` is Python's `None`.
pub record Exchange : Type 0 where
  pub exchange_id : String
  pub client : String
  pub provider : String
  pub resource_type : String
  pub quantity : ℤ
  pub rule_id : String
  pub price : Price
  pub state : State
  pub idempotency_key : String
  pub created_at : String
  pub updated_at : String
  pub version : ℕ
  pub nonce : String
  pub timeouts : Dict ℕ
  pub deadline_ts : Option ℕ
  pub deadline_at : Option String
  pub escrow_handle : Option String
  pub deliverable : Json
  pub deliverable_ref : Option String
  pub result_hash : Option String
  pub vdc : Option Vdc
  pub verify_result : Option VerifyResult
  pub settlement_receipt : Option Receipt
  pub settlement_intent : Option Intent
  pub settlement_terms : Option Json
  pub settlement_binding : Option Binding
  pub dispute_info : Option DisputeInfo
  pub terms_hash : Option String
  pub contract_acks : Dict Ack
  pub trace_context : Option Json
