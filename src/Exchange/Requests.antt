-- ===== src/Exchange/Requests.antt =====
-- Every call of the engine, each with the time at which it is made.
pub mod Grounds
pub mod Acks
pub mod Verdict
pub mod Growth
pub mod Engines
pub mod Rounds
pub mod Births
pub mod Runs
pub mod Retries
pub mod History
pub mod Endings
pub mod Overdue
pub mod Sweeps
use novapanda.Base.{ℕ, String, Option, List, [], ◌∷◌}
use novapanda.Base.Int.{ℤ}
use novapanda.Base.Exec.{Result, Exec}
use novapanda.Canonical.Value.{Json}
use novapanda.Exchange.Fields.{Rule}
use novapanda.Exchange.Engine.{EngineError, Env, Engine, On, on}
use novapanda.Exchange.Methods.{
  Proposal, propose, contract_body, escrow_body, deliver_body, verify_body,
}
use novapanda.Exchange.Closing.{
  ingest_delivery_body, ingest_confirmation_body, confirm_body, dispute_body, resolve_settle,
  resolve_reject, refund_to,
}
use novapanda.Exchange.Upkeep.{recover, sweep}
use novapanda.Host.Params.{Identity}
use novapanda.StateMachine.{cancelled, expired_refunded}
use novapanda.Vdc.Document.{Vdc}

-- The methods that work on one exchange.
pub data Method : Type 0 where
  contract : String → String → Method
  escrow : ℤ → String → Method
  deliver : Identity → Json → String → String → Method
  ingest_delivery : Vdc → Json → Method
  verify : Option Rule → Method
  ingest_confirmation : Vdc → Method
  confirm : Identity → Method
  dispute : String → String → Method
  resolve_to_settle resolve_to_reject : Option String → Option String → Method
  cancel expire : Method

module _ {S : Type 0} (env : Env S) (now : ℕ) where
  unfoldable pub perform : Method → On S Unit
  perform (contract party signature) = contract_body env now party signature
  perform (escrow amount currency) = escrow_body env now amount currency
  perform (deliver i d level id) = deliver_body env now i d level id
  perform (ingest_delivery v d) = ingest_delivery_body env now v d
  perform (verify rule) = verify_body env now rule
  perform (ingest_confirmation v) = ingest_confirmation_body env now v
  perform (confirm i) = confirm_body env now i
  perform (dispute by reason) = dispute_body env now by reason
  perform (resolve_to_settle resolver remark) = resolve_settle env now resolver remark
  perform (resolve_to_reject resolver remark) = resolve_reject env now resolver remark
  perform cancel = refund_to env now cancelled
  perform expire = refund_to env now expired_refunded
