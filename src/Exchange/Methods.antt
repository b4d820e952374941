-- ===== src/Exchange/Methods.antt =====
-- The methods of `ExchangeEngine` up to the verification, in novapanda/exchange.py.
use novapanda.Base.{
  ℕ, String, Bool, not, ◌&&◌, ◌||◌, Option, none, some, [], ◌==◌, is_some, or_else, if◌then◌else◌,
}
use novapanda.Base.Int.{ℤ, eqb_ℤ}
use novapanda.Base.Dict.{Dict, get, put, has}
use novapanda.Base.Exec.{ok, Exec, pure, gets, raise_if, modify, continue, ◌>>=◌, ◌>>◌}
use novapanda.Canonical.Value.{Json, null}
use novapanda.Canonical.Text.{◌⋅◌}
use novapanda.Exchange.Fields.{Exchange, Price, refund, Rule, Verdict, VerifyResult}
use novapanda.Exchange.Store.{idem_set}
use novapanda.Exchange.Terms.{terms_hash_from_exchange, verify_contract_ack}
use novapanda.Exchange.Engine.{
  EngineError, not_a_party, bad_signature, terms_differ, wrong_identity, code_error, vdc_error, Env,
  Engine, On, on, update, lift_result, call, truthy, or_text, assert_transition, save_exchange,
  touch, transition, set_deadline, settle_with_capture, record_outcome, notify_terminal,
}
use novapanda.Exchange.Deliverables.{inline_ref, store_deliverable, load_deliverable}
use novapanda.Host.Params.{Identity}
use novapanda.Host.Hashing.{result_hash_of_json}
use novapanda.StateMachine.{proposed, contracted, escrowed, delivered, verified, rejected, ◌is◌}
use novapanda.Vdc.Document.{Vdc, build_vdc}
use novapanda.Vdc.Sign.{provider_sign}

-- The arguments of `propose`.
pub record Proposal : Type 0 where
  pub client : String
  pub provider : String
  pub resource_type : String
  pub quantity : ℤ
  pub rule_id : String
  pub price : Price
  pub idempotency_key : String
  pub timeouts : Dict ℕ
  pub settlement_terms : Option Json
  pub trace_context : Option Json

-- `_idem_key`
unfoldable pub idem_key : String → String → String
idem_key client key = client ⋅ "\0" ⋅ key

module _ {S : Type 0} (env : Env S) (now : ℕ) where
  abbrev pub fresh_exchange : String → String → Proposal → Exchange
  fresh_exchange id nonce p = record {
    exchange_id = id;
    client = p.client;
    provider = p.provider;
    resource_type = p.resource_type;
    quantity = p.quantity;
    rule_id = p.rule_id;
    price = p.price;
    state = proposed;
    idempotency_key = p.idempotency_key;
    created_at = env.host.iso now;
    updated_at = env.host.iso now;
    version = 0;
    nonce = nonce;
    timeouts = p.timeouts;
    deadline_ts = none;
    deadline_at = none;
    escrow_handle = none;
    deliverable = null;
    deliverable_ref = none;
    result_hash = none;
    vdc = none;
    verify_result = none;
    settlement_receipt = none;
    settlement_intent = none;
    settlement_terms = p.settlement_terms;
    settlement_binding = none;
    dispute_info = none;
    terms_hash = none;
    contract_acks = [];
    trace_context = p.trace_context;
  }

  -- `ex.terms_hash = terms_hash_from_exchange(ex)`
  unfoldable pub fix_terms : On S Unit
  fix_terms = do
    ex ← gets (λ f. f.ex)
    terms ← lift_result code_error (terms_hash_from_exchange env.host ex)
    update (λ x. record x { terms_hash = some terms })

  -- `self._store.add(ex)` and `self._store.idem_set(…)`
  unfoldable pub register : String → On S Unit
  register key = do
    save_exchange
    modify
        (λ f. record f { eng = record f.eng { store = idem_set key f.ex.exchange_id f.eng.store } })

  -- The body of `propose` for a key that is new, which leaves no trace if it raises.
  unfoldable pub propose_new : Exchange → String → Exec (Engine S) EngineError String
  propose_new ex key s =
      let (r, f) =
        (do fix_terms; set_deadline env now (some "contract"); register key)
          (record { ex = ex; eng = s }) in
      continue r (λ _ t. (ok f.ex.exchange_id, t)) f.eng

  -- `propose`; `id` is "ex-" and the hex of a `uuid4`, `nonce` is `new_nonce()`. The result is the
  -- id of the exchange.
  unfoldable pub propose : String → String → Proposal → Exec (Engine S) EngineError String
  propose id nonce p s = elim (get s.store.idem (idem_key p.client p.idempotency_key)) [
    | some existing ↦ on existing (pure existing) s
    | none ↦ propose_new (fresh_exchange id nonce p) (idem_key p.client p.idempotency_key) s
  ]

  unfoldable pub finalize_binding : On S Unit
  finalize_binding = update (λ ex. record ex {
    settlement_binding = some (record { rail = env.adapter.rail; chosen_at = "contract" });
  })

  abbrev both_acked : Exchange → Bool
  both_acked ex = has ex.contract_acks ex.client && has ex.contract_acks ex.provider

  -- what `contract` does by the acknowledgements that there are
  unfoldable pub note_ack : On S Unit
  note_ack = do
    ex ← gets (λ f. f.ex)
    if both_acked ex
        then (do
          if is_some ex.settlement_binding then pure tt else finalize_binding
          transition env now contracted
          set_deadline env now (some "escrow"))
        else update (touch env now)

  -- `contract` from the acknowledgement on
  unfoldable pub record_ack : String → String → On S Unit
  record_ack party signature = do
    update (λ ex. record ex {
      contract_acks =
          put ex.contract_acks party (record { signature = signature; at = env.host.iso now });
    })
    note_ack
    save_exchange

  unfoldable pub check_ack : String → String → On S Unit
  check_ack party signature = do
    ex ← gets (λ f. f.ex)
    valid ←
        lift_result code_error
          (verify_contract_ack env.host party signature (or_else ex.terms_hash "") ex.exchange_id)
    raise_if (not valid) bad_signature

  -- The body of `contract`, with its early returns.
  unfoldable pub contract_body : String → String → On S Unit
  contract_body party signature = do
    ex ← gets (λ f. f.ex)
    if ex.state is contracted then pure tt else do
      if ex.state is proposed then pure tt else assert_transition contracted
      raise_if (not (party == ex.client || party == ex.provider)) not_a_party
      if has ex.contract_acks party then pure tt else do
        if truthy ex.terms_hash then pure tt else fix_terms
        check_ack party signature
        record_ack party signature

  unfoldable pub contract : String → String → String → Exec (Engine S) EngineError Unit
  contract exchange_id party signature = on exchange_id (contract_body party signature)

  -- The adapter is called before the state is checked.
  unfoldable pub escrow_body : ℤ → String → On S Unit
  escrow_body amount currency = do
    ex ← gets (λ f. f.ex)
    raise_if (not (eqb_ℤ amount ex.price.amount && currency == ex.price.currency)) terms_differ
    handle ← call (env.adapter.escrow ex.exchange_id amount currency)
    update (λ x. record x { escrow_handle = some handle })
    transition env now escrowed
    set_deadline env now (some "deliver")
    save_exchange

  unfoldable pub escrow : String → ℤ → String → Exec (Engine S) EngineError Unit
  escrow exchange_id amount currency = on exchange_id (escrow_body amount currency)

  -- From `_store_deliverable` on, which `deliver` and `ingest_delivery` share.
  unfoldable pub accept_delivery : Json → String → Vdc → On S Unit
  accept_delivery deliverable hash v = do
    store_deliverable env deliverable
    update (λ ex. record ex { result_hash = some hash; vdc = some v })
    transition env now delivered
    set_deadline env now (some "verify")
    save_exchange

  -- `deliver`, whose times have their defaults; `vdc_id` is `new_id()`.
  unfoldable pub deliver_body : Identity → Json → String → String → On S Unit
  deliver_body provider deliverable evidence_level vdc_id = do
    ex ← gets (λ f. f.ex)
    raise_if (not (provider.agent_id == ex.provider)) wrong_identity
    hash ← lift_result code_error (result_hash_of_json env.host deliverable)
    draft ← lift_result vdc_error (
        build_vdc vdc_id (env.host.iso now) (record {
          client = ex.client;
          provider = ex.provider;
          resource_type = ex.resource_type;
          quantity = ex.quantity;
          result_hash = hash;
          rule_id = ex.rule_id;
          evidence_level = evidence_level;
          started_at = env.host.iso now;
          finished_at = env.host.iso now;
          idempotency_key = ex.idempotency_key;
          nonce = ex.nonce;
          state = delivered;
        }))
    doc ← lift_result vdc_error (provider_sign env.host draft provider "json")
    accept_delivery deliverable hash doc

  unfoldable pub deliver :
      String → Identity → Json → String → String → Exec (Engine S) EngineError Unit
  deliver exchange_id provider deliverable evidence_level vdc_id =
      on exchange_id (deliver_body provider deliverable evidence_level vdc_id)

  abbrev pub enrich : Exchange → Option Rule → Verdict → VerifyResult
  enrich ex rule v = record {
    passed = v.passed;
    report = v.report;
    exchange_id = ex.exchange_id;
    rule_id = or_text (elim rule [ none ↦ none | some r ↦ r.rule_id ]) ex.rule_id;
    deliverable_ref = or_text ex.deliverable_ref (inline_ref ex.exchange_id);
    schema_inline = elim rule [ none ↦ none | some r ↦ r.schema ];
  }

  unfoldable pub accept : On S Unit
  accept = do transition env now verified; set_deadline env now (some "confirm"); save_exchange

  unfoldable pub refuse : On S Unit
  refuse = do
    settle_with_capture env now refund
    transition env now rejected
    set_deadline env now none
    save_exchange
    record_outcome env now "provider" "rejected"
    notify_terminal env now

  -- `verify` from the verdict on
  unfoldable pub judge : VerifyResult → On S Unit
  judge result = do
    update (λ x. record x { verify_result = some result })
    if result.passed then accept else refuse

  -- `verify`: the state is checked before anything is done
  unfoldable pub verify_body : Option Rule → On S Unit
  verify_body rule = do
    assert_transition verified
    ex ← gets (λ f. f.ex)
    deliverable ← load_deliverable env
    judge (enrich ex rule (env.verifier deliverable rule))

  unfoldable pub verify : String → Option Rule → Exec (Engine S) EngineError Unit
  verify exchange_id rule = on exchange_id (verify_body rule)
