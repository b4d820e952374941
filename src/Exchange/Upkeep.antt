-- ===== src/Exchange/Upkeep.antt =====
-- `recover` and `sweep` of `ExchangeEngine`, in novapanda/exchange.py: what the node does by itself.
pub mod Recovery
use novapanda.Base.{
  ℕ, String, Bool, true, false, not, ◌&&◌, ◌||◌, Option, none, some, List, [], ◌∷◌, ltb,
  if◌then◌else◌,
}
use novapanda.Base.Dict.{get, keys}
use novapanda.Base.Exec.{Result, ok, err, Exec, pure, gets, modify, continue, ◌>>=◌, ◌>>◌}
use novapanda.Exchange.Fields.{
  Exchange, Action, settle, refund, Intent, Progress, pending, finished,
}
use novapanda.Exchange.Store.{keep}
use novapanda.Exchange.Engine.{
  EngineError, Env, Engine, Focus, On, update, lift_result, save_exchange, touch, transition,
  set_deadline, assert_receipt_rail, rail_call, back,
}
use novapanda.Exchange.Closing.{expire}
use novapanda.Settlement.Contract.{SettlementError, Receipt}
use novapanda.StateMachine.{State, settled, expired_refunded, is_terminal, can_transition}

module _ {S A : Type 0} where
  -- The body of a loop over `self._store.values()`, at the exchange under a key.
  unfoldable pub visit : A → String → On S A → Exec (Engine S) EngineError A
  visit absent k m s = elim (get s.store.exchanges k) [
    | none ↦ (ok absent, s)
    | some ex ↦ back k (m (record { ex = ex; eng = s }))
  ]

module _ {S : Type 0} (env : Env S) (now : ℕ) where
  abbrev pub target_of : Action → State
  target_of settle = settled
  target_of refund = expired_refunded

  -- The adapter failed: the intent stays pending and the exchange does not move.
  unfoldable pub note_failure : Intent → SettlementError → On S Bool
  note_failure intent e = do
    update (λ ex. touch env now (record ex {
      settlement_intent = some (record intent { status = pending; last_error = some e });
    }))
    save_exchange
    pure false

  -- The adapter has done it: the intent is closed, and the exchange moves if it still can.
  unfoldable pub complete : Intent → Receipt → On S Bool
  complete intent receipt = do
    assert_receipt_rail env now receipt
    update (λ ex. record ex {
      settlement_receipt = some receipt;
      settlement_intent = some (record intent { status = finished });
    })
    ex ← gets (λ f. f.ex)
    if not (is_terminal ex.state) && can_transition ex.state (target_of intent.action)
        then (do transition env now (target_of intent.action); set_deadline env now none)
        else update (touch env now)
    save_exchange
    pure true

  -- How the `try` ends, by what the adapter gave.
  unfoldable pub replay_end : Intent → Result SettlementError Receipt → On S Bool
  replay_end intent (err e) = note_failure intent e
  replay_end intent (ok receipt) = complete intent receipt

  unfoldable pub replay : Intent → On S Bool
  replay intent f =
      let (r, rail) = rail_call env now intent.action intent.handle f.eng.rail in
      replay_end intent r (record f { eng = record f.eng { rail = rail } })

  unfoldable pub recover_status : Progress → Intent → On S Bool
  recover_status finished intent = pure false
  recover_status pending intent = replay intent

  unfoldable pub recover_intent : Option Intent → On S Bool
  recover_intent none = pure false
  recover_intent (some intent) = recover_status intent.status intent

  -- One round of `recover`; the result says whether the exchange was recovered.
  unfoldable pub recover_one : On S Bool
  recover_one = do intent ← gets (λ f. f.ex.settlement_intent); recover_intent intent

  -- The loop, over the keys of a copy of the store's values; an error ends it.
  unfoldable pub recover_each : List String → Exec (Engine S) EngineError (List String)
  recover_each [] = pure []
  recover_each (k ∷ ks) = do
    done ← visit false k recover_one
    rest ← recover_each ks
    pure (if done then k ∷ rest else rest)

  unfoldable pub recover : Exec (Engine S) EngineError (List String)
  recover s = recover_each (keys s.store.exchanges) s

  -- The deadline of an exchange that waits has come.
  unfoldable pub is_due : Exchange → Bool
  is_due ex = not (is_terminal ex.state) && elim ex.deadline_ts [
    | none ↦ false
    | some deadline ↦ not (ltb now deadline) && can_transition ex.state expired_refunded
  ]

  -- The body of the loop, for the exchange that a key has.
  unfoldable pub sweep_found : Option Exchange → Exec (Engine S) EngineError Bool
  sweep_found none = pure false
  sweep_found (some ex) =
      if is_due ex then (do expire env now ex.exchange_id; pure true) else pure false

  unfoldable pub sweep_one : String → Exec (Engine S) EngineError Bool
  sweep_one k = do found ← gets (λ s. get s.store.exchanges k); sweep_found found

  unfoldable pub sweep_each : List String → Exec (Engine S) EngineError (List String)
  sweep_each [] = pure []
  sweep_each (k ∷ ks) = do
    done ← sweep_one k
    rest ← sweep_each ks
    pure (if done then k ∷ rest else rest)

  unfoldable pub sweep : Exec (Engine S) EngineError (List String)
  sweep s = sweep_each (keys s.store.exchanges) s
