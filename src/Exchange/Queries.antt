-- ===== src/Exchange/Queries.antt =====
-- What a caller may ask of the engine of novapanda/exchange.py, and `terms_hash_from_dict` of
-- novapanda/terms.py, by which a party computes the terms hash from a document.
pub mod Delivered
pub mod Returned
use novapanda.Base.{
  ℕ, String, Bool, true, false, not, Option, none, some, List, [], ◌∷◌, ◌==◌, is_some, or_else,
  if◌then◌else◌,
}
use novapanda.Base.Int.{ℤ, pos, eqb_ℤ}
use novapanda.Base.Dict.{get, values}
use novapanda.Base.Exec.{Result, ok, err, Exec, pure, gets, raise_if, ◌>>=◌, ◌>>◌}
use novapanda.Canonical.Value.{
  Json, null, float, other, bool, int, str, arr, obj, nil, cons, done, field,
}
use novapanda.Exchange.Fields.{Exchange}
use novapanda.Exchange.Terms.{terms_hash_from_exchange}
use novapanda.Exchange.Engine.{
  EngineError, no_result_hash, code_error, Env, Engine, On, on, lift_result,
}
use novapanda.Exchange.Deliverables.{load_deliverable}
use novapanda.Host.Params.{Host}
use novapanda.Host.Hashing.{CodeError, result_hash_of_json}
use novapanda.Vdc.Document.{Vdc}

-- Python's truth of a value; a float is not told apart further.
unfoldable pub is_truthy : Json → Bool
is_truthy null = false
is_truthy float = true
is_truthy other = true
is_truthy (bool b) = b
is_truthy (int z) = not (eqb_ℤ z (pos 0))
is_truthy (str s) = not (s == "")
is_truthy (arr nil) = false
is_truthy (arr (cons _ _)) = true
is_truthy (obj done) = false
is_truthy (obj (field _ _ _)) = true

-- `a or b`
unfoldable pub json_or : Option Json → Option Json → Option Json
json_or none d = d
json_or (some v) d = if is_truthy v then some v else d

-- The document has the members of the exchange, and `settlement` if it is given.
unfoldable pub terms_hash_from_dict : Host → Exchange → Option Json → Result CodeError String
terms_hash_from_dict h ex settlement =
    terms_hash_from_exchange h
      (record ex { settlement_terms = json_or ex.settlement_terms settlement })

-- The answer of `verify_deliverable_candidate`.
pub record Comparison : Type 0 where
  pub matches : Bool
  pub result_hash : String
  pub candidate_hash : String

unfoldable pub first_with : String → List Exchange → Option Vdc
first_with vdc_id [] = none
first_with vdc_id (x ∷ xs) =
    let rest = first_with vdc_id xs in
    elim x.vdc [ none ↦ rest | some v ↦ if v.vdc_id == vdc_id then some v else rest ]

module _ {S : Type 0} (env : Env S) where
  unfoldable pub find_vdc : String → Engine S → Option Vdc
  find_vdc vdc_id s = elim (get s.store.vdcs vdc_id) [
    | some v ↦ some v
    | none ↦ first_with vdc_id (values s.store.exchanges)
  ]

  unfoldable pub get_deliverable : String → Exec (Engine S) EngineError Json
  get_deliverable exchange_id = on exchange_id (load_deliverable env)

  unfoldable pub candidate_body : Json → On S Comparison
  candidate_body deliverable = do
    ex ← gets (λ f. f.ex)
    raise_if (not (is_some ex.result_hash)) no_result_hash
    candidate ← lift_result code_error (result_hash_of_json env.host deliverable)
    let hash = or_else ex.result_hash ""
    pure (record { matches = candidate == hash; result_hash = hash; candidate_hash = candidate })

  unfoldable pub verify_deliverable_candidate :
      String → Json → Exec (Engine S) EngineError Comparison
  verify_deliverable_candidate exchange_id deliverable = on exchange_id (candidate_body deliverable)
