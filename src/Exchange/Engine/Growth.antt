-- ===== src/Exchange/Engine/Growth.antt =====
-- What a method may do: its own exchange goes along the transition table with its terms fixed and its
-- version growing, and the other exchanges stay as they are.
use novapanda.Base.{
  ℕ, String, ◌∙◌, ◌≡◌, refl, not, ◌||◌, is_some, or_else, inl, inr, Bool-cases, true, false, Option,
  none, some, ◌==◌, arith,
}
use novapanda.Base.Dict.{get-put}
use novapanda.Base.Exec.{Result, ok, err, Exec, modify, ◌>>=◌}
use novapanda.Base.Exec.Keeps.{Keeps, keeps_rules, Keeps-bind, Keeps-looks, Leads, Leads-Keeps}
use novapanda.Exchange.Fields.{Exchange, Intent, Action}
use novapanda.Exchange.Store.{exchanges-save, idem-save}
use novapanda.Exchange.Engine.{
  EngineError, Env, Focus, update, lift_result, call, assert_transition, save_exchange, touch,
  transition, set_deadline, capture_intent, assert_receipt_rail, execute_captured,
  settle_with_capture, record_outcome, record_settlement, notify_terminal, truthy, append_fact,
}
use novapanda.Settlement.Contract.{SettlementError, Receipt}
use novapanda.StateMachine.{State, settled, rejected, escrowed, delivered, disputed, can_transition}
use novapanda.Exchange.Engine.Sound.{
  Grounds, given-SameTerms, Rest, Side, Grew-Side, Grew-step, Around, Kept, both_acked,
  verdict_passed, plain, agreed-before, passed-before, Sound, past_contract, past_verification,
}
use novapanda.Exchange.Terms.{terms_hash_from_exchange, terms_fields}

module _ {S : Type 0} {h : Grounds} {a : Exchange} {k : String} {rest : Rest} where
  pub Keeps-update :
      (g : Exchange → Exchange)
      → ((x : Exchange) → Side x (g x))
      → Kept {S = S} h a k rest (update g)
  unfolding modify
  Keeps-update g side = record {
    at = λ f h. record {
      keyed = h.keyed;
      apart = h.apart;
      idem = h.idem;
      grew = Grew-Side h.grew (side f.ex);
    };
  }

  pub Keeps-assert : (dst : State) → Kept h a k rest (assert_transition {S = S} dst)
  unfolding assert_transition
  Keeps-assert dst = Keeps-looks _ (λ f. ground arith)

  pub Keeps-lift :
      {A E : Type 0} (wrap : E → EngineError) (r : Result E A)
      → Kept {S = S} h a k rest (lift_result wrap r)
  Keeps-lift wrap (ok x) = record { at = λ f h. h }
  Keeps-lift wrap (err e) = record { at = λ f h. h }

  -- What changes the engine and leaves its exchanges alone.
  pub keep_engine :
      {f g : Focus S}
      → g.ex ≡ f.ex
      → g.eng.store.exchanges ≡ f.eng.store.exchanges
      → g.eng.store.idem ≡ f.eng.store.idem
      → Around h a k rest f
      → Around h a k rest g
  keep_engine {f} {g} e s i h = record {
    keyed = h.keyed;
    apart = λ j ne. rw s (h.apart j ne);
    idem = i ∙ h.idem;
    grew = rw e h.grew;
  }

  pub Keeps-call : {A : Type 0} (m : Exec S SettlementError A) → Kept h a k rest (call m)
  Keeps-call m = record {
    at = λ f h. keep_engine {f = f} (ground arith) (ground arith) (ground arith) h;
  }

  pub Keeps-save : Kept {S = S} h a k rest save_exchange
  unfolding save_exchange modify
  Keeps-save = record {
    at = λ f h. record {
      keyed = h.keyed;
      apart = λ j ne.
          let other : (f.ex.exchange_id == j) ≡ false = rw (h.grew.terms.id, h.keyed) ne in
          rw (exchanges-save, get-put, other) (h.apart j ne);
      idem = idem-save f.ex f.eng.store ∙ h.idem;
      grew = h.grew;
    };
  }

  -- A legal move of the exchange, for which what the state promises is there.
  pub moved :
      (env : Env S) (now : ℕ) (dst : State) (f : Focus S)
      → Around h a k rest f
      → can_transition f.ex.state dst ≡ true
      → (Sound h f.ex → past_contract dst ≡ true → both_acked f.ex ≡ true)
      → (Sound h f.ex → past_verification dst ≡ true → verdict_passed f.ex ≡ true)
      → Around h a k rest (record f { ex = touch env now (record f.ex { state = dst }) })
  unfolding terms_hash_from_exchange terms_fields
  moved env now dst f w legal agreed passed = record {
    keyed = w.keyed;
    apart = w.apart;
    idem = w.idem;
    grew = Grew-step w.grew legal (omega arith) (ground arith) (λ s. record {
      hashed = s.hashed;
      acked = s.acked;
      agreed = agreed s;
      given = given-SameTerms (ground arith) refl s;
      passed = passed s;
    });
  }

  pub Leads-transition :
      (env : Env S) (now : ℕ) (dst : State) {P : Focus S → Type 0}
      → ((f : Focus S) → P f → Around h a k rest f)
      → ((f : Focus S)
          → P f
          → can_transition f.ex.state dst ≡ true
          → Sound h f.ex
          → past_contract dst ≡ true
          → both_acked f.ex ≡ true)
      → ((f : Focus S)
          → P f
          → can_transition f.ex.state dst ≡ true
          → Sound h f.ex
          → past_verification dst ≡ true
          → verdict_passed f.ex ≡ true)
      → Leads P (Around h a k rest) (transition env now dst)
  unfolding transition assert_transition ◌>>=◌
  Leads-transition env now dst around agreed passed = record {
    at = λ f p. elim (Bool-cases (can_transition f.ex.state dst)) [
      | inl legal ↦
          rw legal (moved env now dst f (around f p) legal (agreed f p legal) (passed f p legal))
      | inr illegal ↦ rw illegal (around f p)
    ];
  }

  pub Keeps-transition :
      (env : Env S) (now : ℕ) (dst : State)
      → plain dst ≡ true
      → Kept {S = S} h a k rest (transition env now dst)
  Keeps-transition env now dst easy = Leads-Keeps (
      Leads-transition env now dst (λ f w. w)
        (λ f w legal s past. s.agreed (agreed-before f.ex.state dst easy legal past))
        (λ f w legal s past. s.passed (passed-before f.ex.state dst easy legal past)))

  pub Keeps-set_deadline :
      (env : Env S) (now : ℕ) (phase : Option String)
      → Kept {S = S} h a k rest (set_deadline env now phase)
  unfolding set_deadline
  Keeps-set_deadline env now none = Keeps-update _ (λ x. ground arith)
  Keeps-set_deadline env now (some p) = Keeps-update _ (λ x. ground arith)

  pub Keeps-capture_intent :
      (env : Env S) (now : ℕ) (i : Intent) → Kept {S = S} h a k rest (capture_intent env now i)
  unfolding capture_intent
  Keeps-capture_intent env now i =
      Keeps-bind _ _ (Keeps-update _ (λ x. ground arith)) (λ _. Keeps-save)

  pub Keeps-assert_receipt_rail :
      (env : Env S) (now : ℕ) (r : Receipt)
      → Kept {S = S} h a k rest (assert_receipt_rail env now r)
  unfolding assert_receipt_rail
  Keeps-assert_receipt_rail env now r = Keeps-looks _ (λ f. ground arith)

  Keeps-execute_captured :
      (env : Env S) (now : ℕ) (x : Action) (handle : String)
      → Kept {S = S} h a k rest (execute_captured env now x handle)
  unfolding execute_captured
  Keeps-execute_captured env now x handle = Keeps-bind _ _ (Keeps-capture_intent env now _) (λ _.
      Keeps-bind _ _ (Keeps-call _) (λ r.
        Keeps-bind _ _ (Keeps-assert_receipt_rail env now r)
          (λ _. Keeps-update _ (λ y. ground arith))))

  pub Keeps-settle_with_capture :
      (env : Env S) (now : ℕ) (x : Action) → Kept {S = S} h a k rest (settle_with_capture env now x)
  unfolding settle_with_capture
  Keeps-settle_with_capture env now x = record {
    at = λ f h.
        elim (Bool-cases (not (truthy f.ex.escrow_handle) || is_some f.ex.settlement_receipt)) [
          | inl nothing ↦ rw nothing h
          | inr held ↦
              rw held ((Keeps-execute_captured env now x (or_else f.ex.escrow_handle "")).at f h)
        ];
  }

  pub Keeps-record_outcome :
      (env : Env S) (now : ℕ) (role outcome : String)
      → Kept {S = S} h a k rest (record_outcome env now role outcome)
  unfolding record_outcome append_fact
  Keeps-record_outcome env now role outcome = record {
    at = λ f h. keep_engine {f = f} (ground arith) (ground arith) (ground arith) h;
  }

  pub Keeps-record_settlement :
      (env : Env S) (now : ℕ) → Kept {S = S} h a k rest (record_settlement env now)
  unfolding record_settlement
  Keeps-record_settlement env now =
      Keeps-bind _ _ (Keeps-record_outcome env now "provider" "settled")
        (λ _. Keeps-record_outcome env now "client" "settled")

  pub Keeps-notify_terminal :
      (env : Env S) (now : ℕ) → Kept {S = S} h a k rest (notify_terminal env now)
  unfolding notify_terminal modify
  Keeps-notify_terminal env now = record { at = λ f h. keep_engine {f = f} refl refl refl h }

  pub Keeps-to_settled :
      (env : Env S) (now : ℕ) → Kept {S = S} h a k rest (transition env now settled)
  Keeps-to_settled env now = Keeps-transition env now settled refl

  pub Keeps-to_rejected :
      (env : Env S) (now : ℕ) → Kept {S = S} h a k rest (transition env now rejected)
  Keeps-to_rejected env now = Keeps-transition env now rejected refl

  pub Keeps-to_escrowed :
      (env : Env S) (now : ℕ) → Kept {S = S} h a k rest (transition env now escrowed)
  Keeps-to_escrowed env now = Keeps-transition env now escrowed refl

  pub Keeps-to_delivered :
      (env : Env S) (now : ℕ) → Kept {S = S} h a k rest (transition env now delivered)
  Keeps-to_delivered env now = Keeps-transition env now delivered refl

  pub Keeps-to_disputed :
      (env : Env S) (now : ℕ) → Kept {S = S} h a k rest (transition env now disputed)
  Keeps-to_disputed env now = Keeps-transition env now disputed refl

pub ruleset growth_rules = (
  keeps_rules, Keeps-assert, Keeps-lift, Keeps-call, Keeps-save, Keeps-to_settled,
  Keeps-to_rejected, Keeps-to_escrowed, Keeps-to_delivered, Keeps-to_disputed, Keeps-set_deadline,
  Keeps-settle_with_capture, Keeps-record_outcome, Keeps-record_settlement, Keeps-notify_terminal,
  Keeps-assert_receipt_rail,
)
