-- ===== src/Exchange/Engine.antt =====
-- The state of `ExchangeEngine` of novapanda/exchange.py and its private helpers. A method works on
-- one exchange: it is an action on that exchange and on the engine around it, and `on` fetches the
-- exchange and puts it back. The engine shares its objects, so what a method wrote before it raised
-- stays written.
-- The engine is built without a rail registry, which is its default.
pub mod Sound
pub mod Growth
use novapanda.Base.{
  ℕ, ◌+◌, String, Bool, true, false, not, ◌&&◌, ◌||◌, Option, none, some, List, [], ◌∷◌, ◌++◌, ◌==◌,
  is_some, or_else, if◌then◌else◌,
}
use novapanda.Base.Int.{ℤ}
use novapanda.Base.Dict.{Dict, get, put}
use novapanda.Base.Exec.{
  Result, ok, err, Exec, pure, raise, gets, or_raise, raise_if, modify, continue, ◌>>=◌, ◌>>◌,
}
use novapanda.Blobs.{BlobKind, BlobError}
use novapanda.Canonical.Value.{Json}
use novapanda.Canonical.Text.{◌⋅◌}
use novapanda.Exchange.Fields.{
  Exchange, Action, settle, refund, Intent, Progress, pending, finished, Rule, Verdict,
  VerifyResult,
}
use novapanda.Exchange.Store.{Store, fetch, keep, save}
use novapanda.Host.Params.{Host, Identity}
use novapanda.Host.Hashing.{CodeError}
use novapanda.Reputation.Log.{Fact, Entry, append}
use novapanda.Settlement.Contract.{SettlementError, Receipt, Adapter}
use novapanda.StateMachine.{State, settled, rejected, expired_refunded, cancelled, can_transition}
use novapanda.Vdc.Document.{Vdc, VdcError}

-- The exceptions that a method can raise.
pub data EngineError : Type 0 where
  not_found not_a_party bad_signature terms_differ rail_differs wrong_identity no_vdc : EngineError
  vdc_not_delivered vdc_differs result_differs bad_outcome no_result_hash : EngineError
  illegal : State → State → EngineError
  settlement : SettlementError → EngineError
  vdc_error : VdcError → EngineError
  code_error : CodeError → EngineError
  blob_error : BlobError → EngineError

-- `ExchangeTerminalSnapshot`
pub record Snapshot : Type 0 where
  pub exchange_id : String
  pub state : State
  pub client : String
  pub provider : String
  pub resource_type : String
  pub quantity : ℤ
  pub vdc_id : Option String
  pub price_amount : ℤ
  pub price_currency : String
  pub outcome_hint : Option String

-- What the engine is built with: the adapter, the verifier, where it keeps a ledger, the node that
-- signs it, and the kind of its blob store, if it has one.
pub record Env (S : Type 0) : Type 0 where
  pub host : Host
  pub adapter : Adapter S
  pub verifier : Json → Option Rule → Verdict
  pub node : Option Identity
  pub blobs : Option BlobKind

-- The store, the state of the rail, the reputation ledger, what the observers were told, and the blobs.
pub record Engine (S : Type 0) : Type 0 where
  pub store : Store
  pub rail : S
  pub ledger : List Entry
  pub told : List Snapshot
  pub blobs : Dict Json

-- The exchange that a method works on, within its engine.
pub record Focus (S : Type 0) : Type 0 where
  pub ex : Exchange
  pub eng : Engine S

abbrev pub On : Type 0 → Type 0 → Type 0
On S A = Exec (Focus S) EngineError A

module _ {S A : Type 0} where
  abbrev pub back : String → Result EngineError A × Focus S → Result EngineError A × Engine S
  back k (r, f) = (r, record f.eng { store = keep k f.ex f.eng.store })

  -- `ex = self.get(exchange_id)`, then the rest of the method
  unfoldable pub on : String → On S A → Exec (Engine S) EngineError A
  on k m s = elim (fetch k s.store) [
    | none ↦ (err not_found, s)
    | some ex ↦ back k (m (record { ex = ex; eng = s }))
  ]

abbrev pub update : {S : Type 0} → (Exchange → Exchange) → On S Unit
update g = modify (λ f. record f { ex = g f.ex })

abbrev pub lift_result : {S A E : Type 0} → (E → EngineError) → Result E A → On S A
lift_result wrap (ok a) f = (ok a, f)
lift_result wrap (err e) f = (err (wrap e), f)

-- A call of the settlement adapter.
abbrev pub call : {S A : Type 0} → Exec S SettlementError A → On S A
call m f =
    let (r, rail) = m f.eng.rail in
    lift_result settlement r (record f { eng = record f.eng { rail = rail } })

abbrev pub truthy : Option String → Bool
truthy none = false
truthy (some s) = not (s == "")

abbrev pub or_text : Option String → String → String
or_text none d = d
or_text (some s) d = if s == "" then d else s

module _ {S : Type 0} where
  unfoldable pub assert_transition : State → On S Unit
  assert_transition dst f =
      if can_transition f.ex.state dst then (ok tt, f) else (err (illegal f.ex.state dst), f)

  unfoldable pub save_exchange : On S Unit
  save_exchange = modify (λ f. record f { eng = record f.eng { store = save f.ex f.eng.store } })

module _ {S : Type 0} (env : Env S) (now : ℕ) where
  abbrev pub touch : Exchange → Exchange
  touch ex = record ex { version = ex.version + 1; updated_at = env.host.iso now }

  -- `_transition`
  unfoldable pub transition : State → On S Unit
  transition dst = do assert_transition dst; update (λ ex. touch (record ex { state = dst }))

  abbrev pub deadline : Option ℕ → Exchange → Exchange
  deadline none ex = record ex { deadline_ts = none; deadline_at = none }
  deadline (some secs) ex = record ex {
    deadline_ts = some (now + secs);
    deadline_at = some (env.host.iso (now + secs));
  }

  abbrev pub phase_secs : Option String → Exchange → Option ℕ
  phase_secs none ex = none
  phase_secs (some phase) ex = get ex.timeouts phase

  unfoldable pub set_deadline : Option String → On S Unit
  set_deadline phase = update (λ ex. deadline (phase_secs phase ex) ex)

  -- capture-before-execute: the intent is saved before the adapter is called
  unfoldable pub capture_intent : Intent → On S Unit
  capture_intent intent = do
    update (λ ex. touch (record ex { settlement_intent = some intent }))
    save_exchange

  abbrev pub rail_call : Action → String → Exec S SettlementError Receipt
  rail_call settle handle = env.adapter.settle handle
  rail_call refund handle = env.adapter.refund handle

  -- `_assert_receipt_rail`: an empty rail on either side is no conflict
  abbrev pub rails_agree : Exchange → Receipt → Bool
  rails_agree ex r = elim ex.settlement_binding [
    | none ↦ true
    | some b ↦ b.rail == "" || (r.rail == "" || r.rail == b.rail)
  ]

  unfoldable pub assert_receipt_rail : Receipt → On S Unit
  assert_receipt_rail r f = if rails_agree f.ex r then (ok tt, f) else (err rail_differs, f)

  abbrev pub intent_of : Action → String → Progress → Intent
  intent_of a h p = record { action = a; handle = h; status = p; last_error = none }

  -- `_settle_with_capture`, once there is a handle and no receipt
  unfoldable pub execute_captured : Action → String → On S Unit
  execute_captured action handle = do
    capture_intent (intent_of action handle pending)
    receipt ← call (rail_call action handle)
    assert_receipt_rail receipt
    update (λ ex. record ex {
      settlement_receipt = some receipt;
      settlement_intent = some (intent_of action handle finished);
    })

  unfoldable pub settle_with_capture : Action → On S Unit
  settle_with_capture action f =
      if not (truthy f.ex.escrow_handle) || is_some f.ex.settlement_receipt
      then (ok tt, f)
      else execute_captured action (or_else f.ex.escrow_handle "") f

  abbrev pub vdc_id_of : Exchange → Option String
  vdc_id_of ex = elim ex.vdc [ none ↦ none | some v ↦ some v.vdc_id ]

  unfoldable pub fact_of : Exchange → String → String → String → Fact
  fact_of ex agent role outcome = record {
    agent_id = agent;
    counterparty = if role == "provider" then ex.client else ex.provider;
    exchange_id = ex.exchange_id;
    vdc_id = vdc_id_of ex;
    role = role;
    outcome = outcome;
    resource_type = ex.resource_type;
    quantity = ex.quantity;
    timestamp = env.host.iso now;
  }

  unfoldable pub append_fact : Fact → Identity → On S Unit
  append_fact fact node f = elim (append env.host node fact none f.eng.ledger) [
    | err e ↦ (err (code_error e), f)
    | ok ledger ↦ (ok tt, record f { eng = record f.eng { ledger = ledger } })
  ]

  -- `record_outcome`, if the engine has a ledger
  unfoldable pub record_outcome : String → String → On S Unit
  record_outcome role outcome f = elim env.node [
    | none ↦ (ok tt, f)
    | some node ↦
        append_fact
          (fact_of f.ex (if role == "provider" then f.ex.provider else f.ex.client) role outcome)
          node f
  ]

  unfoldable pub record_settlement : On S Unit
  record_settlement = do record_outcome "provider" "settled"; record_outcome "client" "settled"

  abbrev pub outcome_from_state : State → Option String
  outcome_from_state settled = some "settled"
  outcome_from_state rejected = some "rejected"
  outcome_from_state expired_refunded = some "expired"
  outcome_from_state cancelled = some "cancelled"
  outcome_from_state _ = none

  unfoldable pub snapshot_from_exchange : Exchange → Snapshot
  snapshot_from_exchange ex = record {
    exchange_id = ex.exchange_id;
    state = ex.state;
    client = ex.client;
    provider = ex.provider;
    resource_type = ex.resource_type;
    quantity = ex.quantity;
    vdc_id = vdc_id_of ex;
    price_amount = ex.price.amount;
    price_currency = if ex.price.currency == "" then "USD" else ex.price.currency;
    outcome_hint = outcome_from_state ex.state;
  }

  unfoldable pub notify_terminal : On S Unit
  notify_terminal = modify (λ f. record f {
    eng = record f.eng { told = f.eng.told ++ snapshot_from_exchange f.ex ∷ [] };
  })
