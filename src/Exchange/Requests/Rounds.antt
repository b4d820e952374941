-- ===== src/Exchange/Requests/Rounds.antt =====
-- What the rounds of `recover` and `sweep` do, and the loops over them.
use novapanda.Exchange.Requests.Grounds.{grounds}
use novapanda.Base.{ℕ, String, ◌≡◌, refl, true, false, Option, none, some, List, [], ◌∷◌, arith}
use novapanda.Base.Exec.{Result, ok, err}
use novapanda.Base.Exec.Keeps.{Keeps, Keeps-bind, Keeps-pure, Keeps-if, Keeps-gets}
use novapanda.Exchange.Fields.{
  Exchange, Action, settle, refund, Intent, Progress, pending, finished,
}
use novapanda.Exchange.Engine.{Env, Engine, Focus, on, rail_call}
use novapanda.Exchange.Engine.Sound.{Rest, Kept, plain}
use novapanda.Exchange.Engine.Growth.{
  Keeps-transition, Keeps-update, Keeps-assert_receipt_rail, keep_engine, growth_rules,
}
use novapanda.Exchange.Closing.{expire}
use novapanda.Exchange.Upkeep.{
  target_of, note_failure, complete, replay_end, replay, recover_status, recover_intent,
  recover_one, visit, recover_each, sweep_found, sweep_one, sweep_each,
}
use novapanda.Exchange.Requests.{Method, expire as expire_method, perform}
use novapanda.Exchange.Requests.Growth.{Keeps-perform}
use novapanda.Exchange.Requests.Acks.{Keeps-touch}
use novapanda.Exchange.Requests.Engines.{Grown, Grown-trans, on-Grown, visit-Grown}
use novapanda.Settlement.Contract.{SettlementError, Receipt}

plain-target_of :
    {S : Type 0} (env : Env S) (now : ℕ) (x : Action) → plain (target_of env now x) ≡ true
plain-target_of env now settle = refl
plain-target_of env now refund = refl

module _ {S : Type 0} (env : Env S) (now : ℕ) {a : Exchange} {k : String} {rest : Rest} where
  Keeps-note_failure :
      (i : Intent) (e : SettlementError)
      → Kept {S = S} (grounds env) a k rest (note_failure env now i e)
  unfolding note_failure
  Keeps-note_failure i e =
      Keeps-bind _ _ (Keeps-update _ (λ x. ground arith)) (λ _. search growth_rules)

  Keeps-complete :
      (i : Intent) (r : Receipt) → Kept {S = S} (grounds env) a k rest (complete env now i r)
  unfolding complete
  Keeps-complete i r = Keeps-bind _ _ (Keeps-assert_receipt_rail env now r) (λ _.
      Keeps-bind _ _ (Keeps-update _ (λ x. ground arith)) (λ _.
        search
          (
            growth_rules,
            Keeps-touch env now,
            Keeps-transition env now (target_of env now i.action)
                (plain-target_of env now i.action),
          )
          depth 9))

  Keeps-replay_end :
      (i : Intent) (r : Result SettlementError Receipt)
      → Kept {S = S} (grounds env) a k rest (replay_end env now i r)
  unfolding replay_end
  Keeps-replay_end i (ok r) = Keeps-complete i r
  Keeps-replay_end i (err e) = Keeps-note_failure i e

  Keeps-replay : (i : Intent) → Kept {S = S} (grounds env) a k rest (replay env now i)
  unfolding replay
  Keeps-replay i = record {
    at = λ f h.
        let (r, rail) = rail_call env now i.action i.handle f.eng.rail in
        let called : Focus S = record f { eng = record f.eng { rail = rail } } in
        (Keeps-replay_end i r).at called (keep_engine {f = f} refl refl refl h);
  }

  Keeps-recover_status :
      (p : Progress) (i : Intent) → Kept {S = S} (grounds env) a k rest (recover_status env now p i)
  unfolding recover_status
  Keeps-recover_status finished i = Keeps-pure _
  Keeps-recover_status pending i = Keeps-replay i

  Keeps-recover_intent :
      (o : Option Intent) → Kept {S = S} (grounds env) a k rest (recover_intent env now o)
  unfolding recover_intent
  Keeps-recover_intent none = Keeps-pure _
  Keeps-recover_intent (some i) = Keeps-recover_status i.status i

  Keeps-recover_one : Kept {S = S} (grounds env) a k rest (recover_one env now)
  unfolding recover_one
  Keeps-recover_one = search (growth_rules, Keeps-recover_intent)

-- Every loop of the node keeps what its rounds keep: here, that the engine grows from `s`.
module _ {S : Type 0} (env : Env S) (now : ℕ) {s : Engine S} where
  Keeps-round : (k : String) → Keeps (Grown (grounds env) s) (visit false k (recover_one env now))
  Keeps-round k = record {
    at = λ t h.
        Grown-trans h (
          visit-Grown (recover_one env now) k (λ a rest. Keeps-recover_one env now) false t
            h.keyed);
  }

  pub Keeps-recover_each :
      (ks : List String) → Keeps (Grown (grounds env) s) (recover_each env now ks)
  unfolding recover_each
  Keeps-recover_each [] = Keeps-pure _
  Keeps-recover_each (k ∷ ks) =
      Keeps-bind _ _ (Keeps-round k)
        (λ done. Keeps-bind _ _ (Keeps-recover_each ks) (λ rest. Keeps-pure _))

  pub Keeps-method :
      (k : String) (m : Method) → Keeps (Grown (grounds env) s) (on k (perform env now m))
  Keeps-method k m = record {
    at = λ t h.
        Grown-trans h
          (on-Grown (perform env now m) k (λ a rest. Keeps-perform env now m) t h.keyed);
  }

  Keeps-expire : (k : String) → Keeps (Grown (grounds env) s) (expire env now k)
  unfolding expire perform
  Keeps-expire k = Keeps-method k expire_method

  Keeps-sweep_found : (o : Option Exchange) → Keeps (Grown (grounds env) s) (sweep_found env now o)
  unfolding sweep_found expire
  Keeps-sweep_found none = Keeps-pure _
  Keeps-sweep_found (some x) =
      Keeps-if _ _ _ (Keeps-bind _ _ (Keeps-expire x.exchange_id) (λ _. Keeps-pure _))
        (Keeps-pure _)

  pub Keeps-sweep_each : (ks : List String) → Keeps (Grown (grounds env) s) (sweep_each env now ks)
  unfolding sweep_each sweep_one
  Keeps-sweep_each [] = Keeps-pure _
  Keeps-sweep_each (k ∷ ks) =
      Keeps-bind _ _ (Keeps-bind _ _ (Keeps-gets _) (λ o. Keeps-sweep_found o))
        (λ done. Keeps-bind _ _ (Keeps-sweep_each ks) (λ rest. Keeps-pure _))
