-- ===== src/Exchange/Queries/Delivered.antt =====
-- What was delivered is what a candidate is compared with, and both ways to hash the terms agree.
use novapanda.Base.{ℕ, String, ◌≡◌, refl, ap, true, Option, none, some, ◌==◌, eq_refl, arith}
use novapanda.Base.Exec.{Result, ok, err, gets, modify, raise_if, ◌>>=◌, ◌>>◌, bind-ok}
use novapanda.Base.Exec.Keeps.{Keeps, Keeps-bind}
use novapanda.Canonical.Value.{Json}
use novapanda.Exchange.Fields.{Exchange}
use novapanda.Exchange.Terms.{terms_hash_from_exchange}
use novapanda.Exchange.Engine.{
  EngineError, code_error, vdc_error, Env, Focus, update, lift_result, transition,
  assert_transition, set_deadline, save_exchange,
}
use novapanda.Exchange.Methods.{accept_delivery, deliver_body}
use novapanda.Exchange.Deliverables.{store_deliverable}
use novapanda.Exchange.Queries.{
  is_truthy, json_or, terms_hash_from_dict, Comparison, candidate_body,
}
use novapanda.Host.Params.{Host, Identity}
use novapanda.Host.Hashing.{result_hash_of_json}
use novapanda.StateMachine.{State, delivered}
use novapanda.Vdc.Document.{Vdc}

json_or-same :
    (o : Option Json) → ((v : Json) → o ≡ some v → is_truthy v ≡ true) → json_or o none ≡ o
unfolding json_or
json_or-same none truthy = refl
json_or-same (some v) truthy = rw (truthy v refl) refl

-- A party that hashes the terms from the exported document gets the hash of the engine, as long as the
-- settlement terms are absent or true in Python's sense, so not an empty dict.
terms_hash_from_dict-agrees :
    (h : Host) (ex : Exchange)
    → ((v : Json) → ex.settlement_terms ≡ some v → is_truthy v ≡ true)
    → terms_hash_from_dict h ex none ≡ terms_hash_from_exchange h ex
unfolding terms_hash_from_dict
terms_hash_from_dict-agrees h ex truthy =
    ap (λ o. terms_hash_from_exchange h (record ex { settlement_terms = o }))
      (json_or-same ex.settlement_terms truthy)

-- The exchange has this hash of its result.
abbrev HasHash : {S : Type 0} → String → Focus S → Type 0
HasHash hash f = f.ex.result_hash ≡ some hash

module _ {S : Type 0} (env : Env S) (now : ℕ) {hash : String} where
  Keeps-transition : (dst : State) → Keeps (HasHash hash) (transition env now dst)
  unfolding transition assert_transition ◌>>=◌
  Keeps-transition dst = record { at = λ f h. ground arith }

  Keeps-set_deadline : (phase : Option String) → Keeps (HasHash hash) (set_deadline env now phase)
  unfolding set_deadline modify
  Keeps-set_deadline phase = record { at = λ f h. ground arith }

  Keeps-save : Keeps (HasHash hash) (save_exchange {S = S})
  unfolding save_exchange modify
  Keeps-save = record { at = λ f h. h }

lift_result-ok :
    {S A E : Type 0} (w : E → EngineError) (r : Result E A) (f g : Focus S) (a : A)
    → lift_result w r f ≡ (ok a, g)
    → r ≡ ok a
lift_result-ok w (ok x) f g a e = cc e
lift_result-ok w (err x) f g a e = absurd (cc e)

candidate-matches :
    {S : Type 0} (env : Env S) (d : Json) (g : Focus S) (hash : String)
    → g.ex.result_hash ≡ some hash
    → result_hash_of_json env.host d ≡ ok hash
    → (c : Comparison) × (candidate_body env d g ≡ (ok c, g)) × (c.matches ≡ true)
unfolding candidate_body ◌>>=◌
candidate-matches env d g hash h r = (
  record { matches = hash == hash; result_hash = hash; candidate_hash = hash },
  rw (h, r) refl,
  eq_refl hash,
)

module _ {S : Type 0} (env : Env S) (now : ℕ) where
  -- what follows the writing of the hash
  Keeps-rest :
      (hash : String)
      → Keeps
          (HasHash {S = S} hash)
          (do transition env now delivered; set_deadline env now (some "verify"); save_exchange)
  Keeps-rest hash =
      Keeps-bind _ _ (Keeps-transition env now delivered)
        (λ _. Keeps-bind _ _ (Keeps-set_deadline env now _) (λ _. Keeps-save env now))

  accept_delivery-hash :
      (d : Json) (hash : String) (v : Vdc) (f g : Focus S)
      → accept_delivery env now d hash v f ≡ (ok tt, g)
      → g.ex.result_hash ≡ some hash
  unfolding accept_delivery modify
  accept_delivery-hash d hash v f g e =
      let (_, f1, _, k1) = bind-ok (store_deliverable env d) _ f e in
      let (_, f2, e2, k2) =
        bind-ok (update (λ ex. record ex { result_hash = some hash; vdc = some v })) _ f1 k1 in
      let start : f2.ex.result_hash ≡ some hash = ground (arith, e2) in
      let kept = (Keeps-rest hash).at f2 start in rw k2 at kept

  deliver-hash :
      (i : Identity) (d : Json) (level id : String) (f g : Focus S)
      → deliver_body env now i d level id f ≡ (ok tt, g)
      → (hash : String) × (result_hash_of_json env.host d ≡ ok hash)
        × (g.ex.result_hash ≡ some hash)
  unfolding deliver_body
  deliver-hash i d level id f g e =
      let (x, f0, _, k0) = bind-ok (gets (λ f. f.ex)) _ f e in
      let (_, f1, _, k1) = bind-ok (raise_if _ _) _ f0 k0 in
      let (hash, f2, e2, k2) =
        bind-ok (lift_result code_error (result_hash_of_json env.host d)) _ f1 k1 in
      let (draft, f3, _, k3) = bind-ok (lift_result vdc_error _) _ f2 k2 in
      let (doc, f4, _, k4) = bind-ok (lift_result vdc_error _) _ f3 k3 in
      (
        hash,
        lift_result-ok code_error (result_hash_of_json env.host d) f1 f2 hash e2,
        accept_delivery-hash d hash doc f4 g k4,
      )

  -- When `deliver` returns, the deliverable that was given is the one that the exchange is compared
  -- with: `verify_deliverable_candidate` of it returns that it matches, and changes nothing.
  delivered-matches :
      (i : Identity) (d : Json) (level id : String) (f g : Focus S)
      → deliver_body env now i d level id f ≡ (ok tt, g)
      → (c : Comparison) × (candidate_body env d g ≡ (ok c, g)) × (c.matches ≡ true)
  delivered-matches i d level id f g e =
      let (hash, r, h) = deliver-hash i d level id f g e in candidate-matches env d g hash h r
