-- ===== src/Exchange/Closing/Payout.antt =====
-- What the methods that end an exchange do to the money behind it.
use novapanda.Base.{
  ℕ, ◌≡◌, refl, sym, ap, String, Bool, true, false, not, ◌||◌, Option, none, some, arith, ◌∙◌,
  Bool-cases, inl, inr, is_some, or_else,
}
use novapanda.Base.Exec.{Result, ok, err, ◌>>=◌, ◌>>◌, bind-ok, modify}
use novapanda.Base.Exec.Keeps.{
  Keeps, keeps_rules, Keeps-looks, Keeps-bind, Keeps-gets, Keeps-raise_if, Keeps-or_raise,
}
use novapanda.Exchange.Fields.{Exchange, Action}
use novapanda.Exchange.Engine.{
  EngineError, Env, Focus, On, update, lift_result, transition, set_deadline, save_exchange,
  assert_transition, assert_receipt_rail, rail_call, rails_agree, settle_with_capture,
  execute_captured, capture_intent, truthy, record_outcome, record_settlement, append_fact,
  notify_terminal,
}
use novapanda.Exchange.Closing.{write_vdc, resolved}
use novapanda.Settlement.Contract.{SettlementError, Receipt}
use novapanda.StateMachine.{State}
use novapanda.Vdc.Document.{Vdc}

-- There is money to move: the exchange has an escrow handle and no receipt yet.
abbrev pub owes : Exchange → Bool
owes ex = not (not (truthy ex.escrow_handle) || is_some ex.settlement_receipt)

module _ {S : Type 0} (env : Env S) (now : ℕ) where
  -- From `f` to `g` what was owed has been moved by one call of the adapter, whose receipt the
  -- exchange keeps, and where nothing was owed neither the rail nor the receipt has changed.
  pub data Paid (a : Action) (f g : Focus S) : Type 0 where
    nothing :
        owes f.ex ≡ false
        → g.eng.rail ≡ f.eng.rail
        → g.ex.settlement_receipt ≡ f.ex.settlement_receipt
        → Paid a f g
    once :
        (r : Receipt)
        → owes f.ex ≡ true
        → rail_call env now a (or_else f.ex.escrow_handle "") f.eng.rail ≡ (ok r, g.eng.rail)
        → g.ex.settlement_receipt ≡ some r
        → Paid a f g

  captured_end :
      (a : Action) (h : String) (f g : Focus S) (p : Result SettlementError Receipt × S)
      → rail_call env now a h f.eng.rail ≡ p
      → execute_captured env now a h f ≡ (ok tt, g)
      → (r : Receipt) × (p ≡ (ok r, g.eng.rail)) × (g.ex.settlement_receipt ≡ some r)
  unfolding execute_captured capture_intent save_exchange assert_receipt_rail ◌>>=◌
  captured_end a h f g (err x, rail) c e = absurd (cc (rw c at e))
  captured_end a h f g (ok r, rail) c e = elim (Bool-cases (rails_agree env now f.ex r)) [
    | inl agree ↦
        let is : g ≡ _ =
          sym (ap (λ (q : Result EngineError Unit × Focus S). q.1) (rw (c, agree) at e)) in
        (r, rw is refl, rw is refl)
    | inr clash ↦ absurd (cc (rw (c, clash) at e))
  ]

  settle_with_capture-Paid :
      (a : Action) (f g : Focus S) → settle_with_capture env now a f ≡ (ok tt, g) → Paid a f g
  unfolding settle_with_capture
  settle_with_capture-Paid a f g e =
      elim (Bool-cases (not (truthy f.ex.escrow_handle) || is_some f.ex.settlement_receipt)) [
        | inl stop ↦
            let is : g ≡ f =
              sym (ap (λ (q : Result EngineError Unit × Focus S). q.1) (rw stop at e)) in
            nothing (rw stop refl) (rw is refl) (rw is refl)
        | inr go ↦
            let (r, c, q) =
              captured_end a (or_else f.ex.escrow_handle "") f g _ refl (rw go at e) in
            once r (rw go refl) c q
      ]

-- Nothing that concerns the money has changed, nor has the state.
pub record Still {S : Type 0} (rail : S) (receipt : Option Receipt) (handle : Option String)
    (state : State) (f : Focus S) : Type 0 where
  pub same_rail : f.eng.rail ≡ rail
  pub same_receipt : f.ex.settlement_receipt ≡ receipt
  pub same_handle : f.ex.escrow_handle ≡ handle
  pub same_state : f.ex.state ≡ state

-- A method leaves the money alone.
abbrev pub Quiet : {S A : Type 0} → On S A → Type 0
Quiet {S} m =
    (rail : S) (receipt : Option Receipt) (handle : Option String) (state : State)
    → Keeps (Still rail receipt handle state) m

module _ {S : Type 0} (env : Env S) (now : ℕ) {rail : S} {q : Option Receipt} {h : Option String}
    {st : State} where
  pub Keeps-set_deadline :
      (phase : Option String) → Keeps (Still rail q h st) (set_deadline env now phase)
  unfolding set_deadline modify
  Keeps-set_deadline none = record { at = λ f s. ground arith }
  Keeps-set_deadline (some p) = record { at = λ f s. ground arith }

  pub Keeps-save : Keeps (Still rail q h st) (save_exchange {S = S})
  unfolding save_exchange modify
  Keeps-save = record { at = λ f s. ground arith }

  pub Keeps-record_outcome :
      (role outcome : String) → Keeps (Still rail q h st) (record_outcome env now role outcome)
  unfolding record_outcome append_fact
  Keeps-record_outcome role outcome = record { at = λ f s. ground arith }

  pub Keeps-record_settlement : Keeps (Still rail q h st) (record_settlement env now)
  unfolding record_settlement
  Keeps-record_settlement =
      Keeps-bind _ _ (Keeps-record_outcome "provider" "settled")
        (λ _. Keeps-record_outcome "client" "settled")

  pub Keeps-notify : Keeps (Still rail q h st) (notify_terminal env now)
  unfolding notify_terminal modify
  Keeps-notify = record { at = λ f s. ground arith }

  pub Keeps-resolved :
      (outcome : String) (resolver remark : Option String)
      → Keeps (Still rail q h st) (update (resolved env now outcome resolver remark))
  unfolding modify
  Keeps-resolved outcome resolver remark = record { at = λ f s. ground arith }

  pub Keeps-set_vdc :
      (v : Vdc) → Keeps (Still rail q h st) (update {S = S} (λ x. record x { vdc = some v }))
  unfolding modify
  Keeps-set_vdc v = record { at = λ f s. ground arith }

  pub Keeps-write_vdc : (v : Vdc) → Keeps (Still rail q h st) (write_vdc env now v)
  unfolding write_vdc modify
  Keeps-write_vdc v = record { at = λ f s. ground arith }

  pub Keeps-assert : (dst : State) → Keeps (Still rail q h st) (assert_transition {S = S} dst)
  unfolding assert_transition
  Keeps-assert dst = Keeps-looks _ (λ f. ground arith)

  pub Keeps-lift :
      {A E : Type 0} (wrap : E → EngineError) (r : Result E A)
      → Keeps (Still rail q h st) (lift_result {S = S} wrap r)
  Keeps-lift wrap (ok x) = record { at = λ f s. s }
  Keeps-lift wrap (err e) = record { at = λ f s. s }

pub ruleset quiet_rules = (
  keeps_rules, Keeps-set_deadline, Keeps-save, Keeps-record_outcome, Keeps-record_settlement,
  Keeps-notify, Keeps-resolved, Keeps-set_vdc, Keeps-write_vdc, Keeps-assert, Keeps-lift,
)

module _ {S : Type 0} (env : Env S) (now : ℕ) (a : Action) (dst : State) where
  -- Where the method succeeds the exchange is in the state, and what was owed has been moved.
  pub record Closes (m : On S Unit) : Type 0 where
    pub at : (f g : Focus S) → m f ≡ (ok tt, g) → Paid env now a f g × (g.ex.state ≡ dst)

  Paid-after :
      (f f' g : Focus S)
      → Still f.eng.rail f.ex.settlement_receipt f.ex.escrow_handle f.ex.state f'
      → Paid env now a f' g
      → Paid env now a f g
  Paid-after f f' g s (nothing stop e q) =
      nothing (rw (s.same_receipt, s.same_handle) at stop) (e ∙ s.same_rail) (q ∙ s.same_receipt)
  Paid-after f f' g s (once r go e q) =
      once r (rw (s.same_receipt, s.same_handle) at go) (rw (s.same_handle, s.same_rail) at e) q

  Paid-then :
      (f g g' : Focus S)
      → Paid env now a f g
      → g'.eng.rail ≡ g.eng.rail
      → g'.ex.settlement_receipt ≡ g.ex.settlement_receipt
      → Paid env now a f g'
  Paid-then f g g' (nothing stop e q) rail receipt = nothing stop (rail ∙ e) (receipt ∙ q)
  Paid-then f g g' (once r go e q) rail receipt = once r go (rw rail e) (receipt ∙ q)

  pub Closes-bind :
      {A : Type 0} (m : On S A) (k : A → On S Unit)
      → Quiet m
      → ((x : A) → Closes (k x))
      → Closes (m >>= k)
  Closes-bind m k quiet rest = record {
    at = λ f g e.
        let (x, f', first, second) = bind-ok m k f e in
        let (paid, ends) = (rest x).at f' g second in
        let start : Still _ _ _ _ f = record {
          same_rail = refl;
          same_receipt = refl;
          same_handle = refl;
          same_state = refl;
        } in
        let still =
          (quiet f.eng.rail f.ex.settlement_receipt f.ex.escrow_handle f.ex.state).at f start in
        (Paid-after f f' g (rw first at still) paid, ends);
  }

  moved_to :
      (f g : Focus S)
      → transition env now dst f ≡ (ok tt, g)
      → Still f.eng.rail f.ex.settlement_receipt f.ex.escrow_handle dst g
  unfolding transition assert_transition ◌>>=◌
  moved_to f g e = ground arith

  pub Closes-core :
      (k : On S Unit)
      → Quiet k
      → Closes (settle_with_capture env now a >> (transition env now dst >> k))
  Closes-core k quiet = record {
    at = λ f g e.
        let (_, f1, first, e1) = bind-ok (settle_with_capture env now a) _ f e in
        let (_, f2, second, e2) = bind-ok (transition env now dst) _ f1 e1 in
        let moved = moved_to f1 f2 second in
        let kept =
          (quiet f1.eng.rail f1.ex.settlement_receipt f1.ex.escrow_handle dst).at f2 moved in
        let still = rw e2 at kept in
        (
          Paid-then f f1 g (settle_with_capture-Paid env now a f f1 first) still.same_rail
              still.same_receipt,
          still.same_state,
        );
  }
