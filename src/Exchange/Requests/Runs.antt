-- ===== src/Exchange/Requests/Runs.antt =====
-- Runs of the engine: any calls in any order, failing ones included.
use novapanda.Exchange.Requests.Grounds.{grounds}
use novapanda.Base.{ℕ, String, ◌≡◌, refl, inl, inr, Option, none, some, Option-cases, arith}
use novapanda.Base.Dict.{get, get-empty}
use novapanda.Base.Exec.{ok, pure}
use novapanda.Base.Exec.Keeps.{Keeps, Keeps-pure}
use novapanda.Exchange.Fields.{Exchange}
use novapanda.Exchange.Engine.{EngineError, Env, Engine, Focus, on, deadline}
use novapanda.Exchange.Engine.Sound.{given-SameTerms, Sound}
use novapanda.Exchange.Terms.{terms_fields, terms_hash_from_exchange}
use novapanda.Exchange.Methods.{idem_key, Proposal, propose, propose_new, fresh_exchange}
use novapanda.Exchange.Upkeep.{recover, sweep}
use novapanda.Exchange.Requests.{Method, perform}
use novapanda.Exchange.Requests.Engines.{IsKeyed, Grown, Grown-refl, Grown-trans, on-Grown}
use novapanda.StateMachine.{proposed}
use novapanda.StateMachine.Lifecycle.{born}
use novapanda.Exchange.Requests.Rounds.{Keeps-recover_each, Keeps-method, Keeps-sweep_each}
use novapanda.Exchange.Requests.Births.{
  Born, proposed_exchange, propose_new-adds, Evolved, Grown-Evolved, Evolved-refl, Evolved-trans,
  added, same_exchanges, propose_new-remembers,
}

-- A step of the node: a call of a client, or what the node does by itself. Each may raise.
pub data Step {S : Type 0} (env : Env S) (s : Engine S) : Engine S → Type 0 where
  -- the id that `uuid4` gives is new
  proposes :
      (id nonce : String) (p : Proposal) (now : ℕ)
      → get s.store.exchanges id ≡ none
      → Step env s (propose env now id nonce p s).1
  calls : (k : String) (m : Method) (now : ℕ) → Step env s (on k (perform env now m) s).1
  recovers : (now : ℕ) → Step env s (recover env now s).1
  sweeps : (now : ℕ) → Step env s (sweep env now s).1

pub data Run {S : Type 0} (env : Env S) (s : Engine S) : Engine S → Type 0 where
  start : Run env s s
  then_step : {t u : Engine S} → Run env s t → Step env t u → Run env s u

module _ {S : Type 0} (env : Env S) where
  exchange_id-deadline :
      (now : ℕ) (o : Option ℕ) (x : Exchange) → (deadline env now o x).exchange_id ≡ x.exchange_id
  exchange_id-deadline now none x = refl
  exchange_id-deadline now (some n) x = refl

  Born-deadline :
      (now : ℕ) (o : Option ℕ) (x : Exchange)
      → x.state ≡ proposed
      → Sound (grounds env) x
      → Born (grounds env) (deadline env now o x)
  unfolding terms_hash_from_exchange terms_fields
  Born-deadline now none x e s = record {
    transitions = 0;
    life = rw e born;
    version = omega arith;
    sound = record {
      hashed = s.hashed;
      acked = s.acked;
      agreed = s.agreed;
      given = given-SameTerms (ground arith) refl s;
      passed = s.passed;
    };
  }
  Born-deadline now (some n) x e s = record {
    transitions = 0;
    life = rw e born;
    version = omega arith;
    sound = record {
      hashed = s.hashed;
      acked = s.acked;
      agreed = s.agreed;
      given = given-SameTerms (ground arith) refl s;
      passed = s.passed;
    };
  }

  -- A proposal has no acknowledgements yet, and the hash of its terms.
  Sound-fresh :
      (now : ℕ) (id nonce terms : String) (p : Proposal)
      → terms_hash_from_exchange env.host (fresh_exchange env now id nonce p) ≡ ok terms
      → Sound (grounds env) (record (fresh_exchange env now id nonce p) { terms_hash = some terms })
  unfolding terms_hash_from_exchange terms_fields
  Sound-fresh now id nonce terms p e = record {
    hashed = e;
    acked = λ q a f. absurd (cc (f, get-empty q));
    agreed = λ h. absurd (cc h);
    given = λ v f. absurd (cc f);
    passed = λ h. absurd (cc h);
  }

  Evolved-propose_new :
      (now : ℕ) (id nonce key : String) (p : Proposal) (s : Engine S)
      → IsKeyed s
      → get s.store.exchanges id ≡ none
      → get s.store.idem key ≡ none
      → Evolved (grounds env) s (propose_new env now (fresh_exchange env now id nonce p) key s).1
  unfolding proposed_exchange
  Evolved-propose_new now id nonce key p s keyed fresh new =
      let ex = fresh_exchange env now id nonce p in
      elim (propose_new-adds env now ex key s) [
        | inl same ↦
            same_exchanges s (propose_new env now ex key s).1 same keyed
              (propose_new-remembers env now ex key s new)
        | inr (terms, e, is) ↦
            added s (propose_new env now ex key s).1 (proposed_exchange env now ex terms) keyed
              (Born-deadline now _ (record ex { terms_hash = some terms }) refl
                (Sound-fresh now id nonce terms p e))
              (rw exchange_id-deadline fresh) is (propose_new-remembers env now ex key s new)
      ]

  Keeps-existing :
      {s : Engine S} (k : String)
      → Keeps (Grown (grounds env) s) (on k (pure {S = Focus S} {E = EngineError} k))
  Keeps-existing k = record {
    at = λ t h. Grown-trans h (on-Grown (pure k) k (λ a rest. Keeps-pure k) t h.keyed);
  }

  pub Evolved-propose :
      (now : ℕ) (id nonce : String) (p : Proposal) (s : Engine S)
      → IsKeyed s
      → get s.store.exchanges id ≡ none
      → Evolved (grounds env) s (propose env now id nonce p s).1
  unfolding propose
  Evolved-propose now id nonce p s keyed fresh =
      elim (Option-cases (get s.store.idem (idem_key p.client p.idempotency_key))) [
        | inl new ↦ rw (new, propose) (Evolved-propose_new now id nonce _ p s keyed fresh new)
        | inr (k, old) ↦
            rw (old, propose) (Grown-Evolved ((Keeps-existing k).at s (Grown-refl s keyed)))
      ]

  Evolved-Step : {s t : Engine S} → IsKeyed s → Step env s t → Evolved (grounds env) s t
  unfolding recover sweep
  Evolved-Step {s} keyed (proposes id nonce p now fresh) =
      Evolved-propose now id nonce p s keyed fresh
  Evolved-Step {s} keyed (calls k m now) =
      Grown-Evolved ((Keeps-method env now k m).at s (Grown-refl s keyed))
  Evolved-Step {s} keyed (recovers now) =
      Grown-Evolved ((Keeps-recover_each env now _).at s (Grown-refl s keyed))
  Evolved-Step {s} keyed (sweeps now) =
      Grown-Evolved ((Keeps-sweep_each env now _).at s (Grown-refl s keyed))

  pub Evolved-Run : {s t : Engine S} → IsKeyed s → Run env s t → Evolved (grounds env) s t
  Evolved-Run {s} keyed start = Evolved-refl s keyed
  Evolved-Run {s} keyed (then_step r x) =
      let before = Evolved-Run keyed r in Evolved-trans before (Evolved-Step before.keyed x)
