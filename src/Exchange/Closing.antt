-- ===== src/Exchange/Closing.antt =====
-- The methods of `ExchangeEngine` that take signed documents over HTTP, and those that end an
-- exchange, in novapanda/exchange.py.
pub mod Payout
use novapanda.Base.{
  ℕ, String, Bool, true, false, not, ◌&&◌, ◌||◌, Option, none, some, ◌==◌, is_some, if◌then◌else◌,
  or_else,
}
use novapanda.Base.Int.{eqb_ℤ}
use novapanda.Base.Dict.{has, put}
use novapanda.Base.Exec.{
  Result, ok, err, Exec, pure, raise, gets, or_raise, raise_if, modify, continue, ◌>>=◌, ◌>>◌,
}
use novapanda.Canonical.Value.{Json}
use novapanda.Exchange.Fields.{Exchange, Action, settle, refund, DisputeInfo}
use novapanda.Exchange.Engine.{
  EngineError, not_a_party, bad_signature, terms_differ, wrong_identity, no_vdc, vdc_not_delivered,
  vdc_differs, result_differs, bad_outcome, code_error, vdc_error, Env, Engine, On, on, update,
  lift_result, assert_transition, save_exchange, transition, set_deadline, settle_with_capture,
  record_outcome, record_settlement, notify_terminal,
}
use novapanda.Exchange.Methods.{accept_delivery}
use novapanda.Host.Params.{Identity}
use novapanda.Host.Hashing.{result_hash_of_json}
use novapanda.StateMachine.{
  State, delivered, settled, rejected, expired_refunded, cancelled, disputed, ◌is◌,
}
use novapanda.Vdc.Document.{Vdc}
use novapanda.Vdc.Sign.{client_sign, verify_provider, verify_client}

-- `actual == expected` of `ingest_delivery`
unfoldable pub terms_match : Vdc → Exchange → Bool
terms_match v ex =
    v.client == ex.client
    && (v.provider == ex.provider
        && (v.resource_type == ex.resource_type
            && (eqb_ℤ v.quantity ex.quantity
                && (v.rule_id == ex.rule_id
                    && (v.nonce == ex.nonce && v.idempotency_key == ex.idempotency_key)))))

module _ {S : Type 0} (env : Env S) (now : ℕ) where
  unfoldable pub ingest_delivery_body : Vdc → Json → On S Unit
  ingest_delivery_body v deliverable = do
    assert_transition delivered
    raise_if (not (v.state is delivered)) vdc_not_delivered
    ex ← gets (λ f. f.ex)
    raise_if (not (terms_match v ex)) terms_differ
    hash ← lift_result code_error (result_hash_of_json env.host deliverable)
    raise_if (not (v.result_hash == hash)) result_differs
    good ← lift_result vdc_error (verify_provider env.host v)
    raise_if (not good) bad_signature
    accept_delivery env now deliverable hash v

  unfoldable pub ingest_delivery : String → Vdc → Json → Exec (Engine S) EngineError Unit
  ingest_delivery exchange_id v deliverable = on exchange_id (ingest_delivery_body v deliverable)

  -- The end of `ingest_confirmation` and `confirm`: pay, settle, tell.
  unfoldable pub settle_now : On S Unit
  settle_now = do
    settle_with_capture env now settle
    transition env now settled
    set_deadline env now none
    save_exchange
    record_settlement env now
    notify_terminal env now

  abbrev same_vdc : Option Vdc → Vdc → Bool
  same_vdc none w = false
  same_vdc (some v) w = w.vdc_id == v.vdc_id

  unfoldable pub ingest_confirmation_body : Vdc → On S Unit
  ingest_confirmation_body v = do
    assert_transition settled
    ex ← gets (λ f. f.ex)
    raise_if (not (same_vdc ex.vdc v)) vdc_differs
    provider_good ← lift_result vdc_error (verify_provider env.host v)
    raise_if (not provider_good) bad_signature
    client_good ← lift_result vdc_error (verify_client env.host v)
    raise_if (not client_good) bad_signature
    update (λ x. record x { vdc = some (record v { state = settled }) })
    settle_now

  unfoldable pub ingest_confirmation : String → Vdc → Exec (Engine S) EngineError Unit
  ingest_confirmation exchange_id v = on exchange_id (ingest_confirmation_body v)

  -- A change of the exchange's VDC in place, which the table of VDCs shares.
  unfoldable pub write_vdc : Vdc → On S Unit
  write_vdc v = modify (λ f. record {
    ex = record f.ex { vdc = some v };
    eng = record f.eng {
      store = record f.eng.store {
        vdcs =
            if has f.eng.store.vdcs v.vdc_id
            then put f.eng.store.vdcs v.vdc_id v
            else f.eng.store.vdcs;
      };
    };
  })

  -- `confirm`: the VDC is signed, and the money moves, before the state is checked
  unfoldable pub confirm_body : Identity → On S Unit
  confirm_body client = do
    ex ← gets (λ f. f.ex)
    raise_if (not (client.agent_id == ex.client)) wrong_identity
    v ← or_raise ex.vdc no_vdc
    signed ← lift_result vdc_error (client_sign env.host v client)
    write_vdc (record signed { state = settled })
    settle_now

  unfoldable pub confirm : String → Identity → Exec (Engine S) EngineError Unit
  confirm exchange_id client = on exchange_id (confirm_body client)

  unfoldable pub dispute_body : String → String → On S Unit
  dispute_body by reason = do
    assert_transition disputed
    ex ← gets (λ f. f.ex)
    raise_if (not (by == ex.client || by == ex.provider)) not_a_party
    update (λ x. record x {
      dispute_info = some (record {
        by = some by;
        reason = some reason;
        opened_at = some (env.host.iso now);
        resolution = none;
        resolver = none;
        note = none;
        resolved_at = none;
      });
    })
    transition env now disputed
    save_exchange

  unfoldable pub dispute : String → String → String → Exec (Engine S) EngineError Unit
  dispute exchange_id by reason = on exchange_id (dispute_body by reason)

  abbrev no_dispute : DisputeInfo
  no_dispute = record {
    by = none;
    reason = none;
    opened_at = none;
    resolution = none;
    resolver = none;
    note = none;
    resolved_at = none;
  }

  abbrev pub resolved : String → Option String → Option String → Exchange → Exchange
  resolved outcome resolver remark ex = record ex {
    dispute_info = some (record (or_else ex.dispute_info no_dispute) {
      resolution = some outcome;
      resolver = resolver;
      note = remark;
      resolved_at = some (env.host.iso now);
    });
  }

  -- `resolve` to "settle", from the check of the state on
  unfoldable pub resolve_settle : Option String → Option String → On S Unit
  resolve_settle resolver remark = do
    assert_transition settled
    settle_with_capture env now settle
    transition env now settled
    update (resolved "settle" resolver remark)
    set_deadline env now none
    save_exchange
    record_settlement env now
    notify_terminal env now

  -- `resolve` to "reject"
  unfoldable pub resolve_reject : Option String → Option String → On S Unit
  resolve_reject resolver remark = do
    assert_transition rejected
    settle_with_capture env now refund
    transition env now rejected
    update (resolved "reject" resolver remark)
    set_deadline env now none
    save_exchange
    record_outcome env now "provider" "rejected"
    notify_terminal env now

  unfoldable pub resolve :
      String → String → Option String → Option String → Exec (Engine S) EngineError Unit
  resolve exchange_id outcome resolver remark s =
      if outcome == "settle"
      then on exchange_id (resolve_settle resolver remark) s
      else if outcome == "reject"
      then on exchange_id (resolve_reject resolver remark) s
      else (err bad_outcome, s)

  -- `cancel` and `expire`: the check, the refund, and then the end
  unfoldable pub refund_to : State → On S Unit
  refund_to dst = do
    assert_transition dst
    settle_with_capture env now refund
    transition env now dst
    set_deadline env now none
    save_exchange
    notify_terminal env now

  unfoldable pub cancel : String → Exec (Engine S) EngineError Unit
  cancel exchange_id = on exchange_id (refund_to cancelled)

  unfoldable pub expire : String → Exec (Engine S) EngineError Unit
  expire exchange_id = on exchange_id (refund_to expired_refunded)
