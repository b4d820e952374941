-- ===== src/Exchange/Upkeep/Recovery.antt =====
-- Capture-before-execute: what `recover` makes of an intent that a crash or a failing adapter has left
-- pending.
use novapanda.Base.{
  ℕ, ◌≡◌, refl, sym, String, Bool, true, false, Option, some, List, [], ◌∷◌, arith, ◌∙◌,
}
use novapanda.Base.Seq.{All}
use novapanda.Base.Exec.{Result, ok, err, ◌>>=◌}
use novapanda.Exchange.Fields.{Action, settle, refund, Intent, pending}
use novapanda.Exchange.Engine.{
  EngineError, Env, Focus, transition, set_deadline, save_exchange, assert_transition,
  assert_receipt_rail, rail_call, rails_agree,
}
use novapanda.Exchange.Upkeep.{
  target_of, note_failure, complete, replay_end, replay, recover_status, recover_intent,
  recover_one,
}
use novapanda.Settlement.Contract.{SettlementError, Receipt, IsLawful}
use novapanda.StateMachine.{State, proposed, is_terminal, can_transition}

module _ {S : Type 0} (env : Env S) (now : ℕ) (f : Focus S) where
  abbrev pub at_rail : S → Focus S
  at_rail rail = record f { eng = record f.eng { rail = rail } }

  module _ (a : Action) (h : String) (o : Option SettlementError) where
    abbrev Pending : Type 0
    Pending =
        f.ex.settlement_intent
        ≡ some (record { action = a; handle = h; status = pending; last_error = o })

    abbrev intent : Intent
    intent = record { action = a; handle = h; status = pending; last_error = o }

    recover_one-replays :
        (rail : S)
        → Pending
        → recover_one env now (at_rail rail) ≡ replay env now intent (at_rail rail)
    unfolding recover_one recover_intent recover_status ◌>>=◌
    recover_one-replays rail p = rw p refl

    replay-end :
        (rail rail' : S) (r : Result SettlementError Receipt)
        → rail_call env now a h rail ≡ (r, rail')
        → replay env now intent (at_rail rail) ≡ replay_end env now intent r (at_rail rail')
    unfolding replay
    replay-end rail rail' r e = rw e refl

-- What a round of `recover` ends with when the adapter has done the action.
pub record Done {S : Type 0} (r : Receipt) (rail : S) (dst : State)
    (p : Result EngineError Bool × Focus S) : Type 0 where
  pub recovered : p.0 ≡ ok true
  pub state : p.1.ex.state ≡ dst
  pub receipt : p.1.ex.settlement_receipt ≡ some r
  pub rail_after : p.1.eng.rail ≡ rail

-- A state that can be left is not terminal.
leaves : (s t : State) → can_transition s t ≡ true → is_terminal s ≡ false
unfolding can_transition is_terminal
leaves proposed t h = ground arith
leaves _ t h = ground arith

module _ {S : Type 0} (env : Env S) (now : ℕ) (f : Focus S) (i : Intent) (r : Receipt) where
  complete-Done :
      rails_agree env now f.ex r ≡ true
      → can_transition f.ex.state (target_of env now i.action) ≡ true
      → Done r f.eng.rail (target_of env now i.action) (complete env now i r f)
  unfolding complete assert_receipt_rail transition assert_transition set_deadline save_exchange
      ◌>>=◌
  complete-Done agree legal =
      let live = leaves f.ex.state (target_of env now i.action) legal in
      rw (agree, live, legal) (ground arith)

-- The adapter gives the receipt again, whether the crash came before the call or after it.
module _ {S : Type 0} (env : Env S) (law : IsLawful env.adapter) where
  call_again :
      (now : ℕ) (a : Action) (h : String) (s s' : S) (r : Receipt)
      → rail_call env now a h s ≡ (ok r, s')
      → rail_call env now a h s' ≡ (ok r, s')
  call_again now settle h s s' r e = law.settle_again h s s' r e
  call_again now refund h s s' r e = law.refund_again h s s' r e

  module _ (now : ℕ) (f : Focus S) (a : Action) (h : String) (o : Option SettlementError)
      (open_intent : f.ex.settlement_intent
        ≡ some (record { action = a; handle = h; status = pending; last_error = o })) where
    -- An exchange whose intent a crash has left pending: it makes no difference to `recover` whether
    -- the adapter had been called before the crash. In both cases the round succeeds, the rail is as
    -- after that one call, the exchange holds its receipt and is settled or refunded as intended. The
    -- adapter is lawful, the receipt is of the rail of the contract, and the state allows the move.
    pub recover-after_crash :
        (rail' : S) (r : Receipt)
        → rail_call env now a h f.eng.rail ≡ (ok r, rail')
        → rails_agree env now f.ex r ≡ true
        → can_transition f.ex.state (target_of env now a) ≡ true
        → Done r rail' (target_of env now a) (recover_one env now f)
          × (recover_one env now (at_rail env now f rail') ≡ recover_one env now f)
    unfolding replay_end
    recover-after_crash rail' r e agree legal =
        let first =
          recover_one-replays env now f a h o f.eng.rail open_intent
          ∙ replay-end env now f a h o f.eng.rail rail' (ok r) e in
        let second =
          recover_one-replays env now f a h o rail' open_intent
          ∙ replay-end env now f a h o rail' rail' (ok r)
              (call_again now a h f.eng.rail rail' r e) in
        (
          rw (first, replay_end)
              (complete-Done env now (at_rail env now f rail') (intent env now f a h o) r agree
                legal),
          second ∙ sym first,
        )

module _ {S : Type 0} (env : Env S) where
  -- The adapter fails in a round of `recover` at a time, the rail being in a state.
  unfoldable pub Fails : Action → String → ℕ × S → Type 0
  Fails a h (now, rail) =
      (e : SettlementError) × (rail' : S) × (rail_call env now a h rail ≡ (err e, rail'))

  -- Rounds of `recover`, each at its time and with the rail in the state that it has come to.
  unfoldable pub after_rounds : List (ℕ × S) → Focus S → Focus S
  after_rounds [] f = f
  after_rounds ((now, rail) ∷ rs) f =
      after_rounds rs (recover_one env now (at_rail env now f rail)).1

  module _ (a : Action) (h : String) where
    abbrev pub IsPending : Focus S → Type 0
    IsPending f =
        (o : Option SettlementError) × (f.ex.settlement_intent
          ≡ some (record { action = a; handle = h; status = pending; last_error = o }))

    -- The exchange waits as before.
    record Waits (f g : Focus S) : Type 0 where
      open_intent : IsPending g
      state : g.ex.state ≡ f.ex.state
      receipt : g.ex.settlement_receipt ≡ f.ex.settlement_receipt
      binding : g.ex.settlement_binding ≡ f.ex.settlement_binding

    failed_round-Waits :
        (now : ℕ) (rail : S) (f : Focus S)
        → IsPending f
        → Fails a h (now, rail)
        → Waits f (recover_one env now (at_rail env now f rail)).1
    unfolding replay_end note_failure save_exchange ◌>>=◌ Fails
    failed_round-Waits now rail f (o, p) (e, rail', c) =
        rw
          (recover_one-replays env now f a h o rail p
            ∙ replay-end env now f a h o rail rail' (err e) c)
          (record { open_intent = (some e, refl); state = refl; receipt = refl; binding = refl })

    after_rounds-Waits :
        (rs : List (ℕ × S)) (f : Focus S)
        → IsPending f
        → All (Fails a h) rs
        → Waits f (after_rounds rs f)
    unfolding after_rounds
    after_rounds-Waits [] f p fs = record {
      open_intent = p;
      state = refl;
      receipt = refl;
      binding = refl;
    }
    after_rounds-Waits ((now, rail) ∷ rs) f p (fails, fs) =
        let one = failed_round-Waits now rail f p fails in
        let rest = after_rounds-Waits rs _ one.open_intent fs in
        record {
          open_intent = rest.open_intent;
          state = rest.state ∙ one.state;
          receipt = rest.receipt ∙ one.receipt;
          binding = rest.binding ∙ one.binding;
        }

    -- An exchange whose intent is pending is not lost by failures of the adapter: after any number of
    -- rounds of `recover` in which the adapter raises, at any times and in any states of the rail, its
    -- state and its receipt are as before, and the first round in which the adapter does the action
    -- succeeds. The rail is then as after that one call, and the exchange holds its receipt and is
    -- settled or refunded as intended. The receipt is of the rail of the contract, and the state that
    -- the exchange was in allows the move.
    pub recover-after_failures :
        (rs : List (ℕ × S)) (f : Focus S) (now : ℕ) (rail rail' : S) (r : Receipt)
        → IsPending f
        → All (Fails a h) rs
        → rail_call env now a h rail ≡ (ok r, rail')
        → rails_agree env now f.ex r ≡ true
        → can_transition f.ex.state (target_of env now a) ≡ true
        → let g = after_rounds rs f in
          (g.ex.state ≡ f.ex.state)
          × (g.ex.settlement_receipt ≡ f.ex.settlement_receipt)
          × Done r rail' (target_of env now a) (recover_one env now (at_rail env now g rail))
    unfolding replay_end
    recover-after_failures rs f now rail rail' r p fs e agree legal =
        let w = after_rounds-Waits rs f p fs in
        let g = after_rounds rs f in
        let (o, is) = w.open_intent in
        let first =
          recover_one-replays env now g a h o rail is
          ∙ replay-end env now g a h o rail rail' (ok r) e in
        (
          w.state,
          w.receipt,
          rw (first, replay_end)
              (complete-Done env now (at_rail env now g rail') (intent env now g a h o) r
                (rw (rails_agree, w.binding) agree) (rw w.state legal)),
        )
