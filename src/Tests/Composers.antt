-- ===== src/Tests/Composers.antt =====
-- The end of `run_all`, for a bundle of two legs.
use novapanda.Base.{ℕ, suc, String, true, Option, none, some, List, [], ◌∷◌, ◌≡◌, ◌⊎◌, refl, ap}
use novapanda.Base.Seq.{length}
use novapanda.Base.Exec.{Result, ok, err, Exec}
use novapanda.Bundle.{Bundle, OrderError, topological_order}
use novapanda.Composer.{LegResult, ClaimWallet, Reservation, not_ordered, run_all}
use novapanda.Composer.Ends.{IsNaming}
use novapanda.Composer.Finish.{Ended, run_all-Ended}

-- counts the calls
abbrev wallet : ClaimWallet ℕ
wallet = record {
  reserve = λ c x n. (ok tt, suc n);
  capture = λ c n. (ok tt, suc n);
  release = λ c n. (ok tt, suc n);
}

abbrev run_fn : String → Exec ℕ String LegResult
run_fn leg n = (
  ok (record {
    leg_id = leg;
    exchange_id = some "x";
    vdc_id = none;
    state = "SETTLED";
    error = none;
  }),
  suc n,
)

abbrev exchange_in : Result String LegResult → Option String
exchange_in (err e) = none
exchange_in (ok result) = result.exchange_id

run_fn-IsNaming : IsNaming run_fn
run_fn-IsNaming = record {
  names =
      λ leg w result e. let q : some "x" ≡ result.exchange_id = ap exchange_in e in rw (← q) refl;
}

abbrev two_legs : Bundle
two_legs = record { exchange_ids = "a" ∷ "b" ∷ []; depends_on = ("b", "a" ∷ []) ∷ [] }

abbrev claims : String → Option Reservation
claims leg = some (record { claim_id = "c"; exchange_id = "x" })

run_all-Ended_example :
    ((e : OrderError) × (topological_order two_legs ≡ err e)
      × ((n : ℕ) → run_all wallet run_fn true [] claims n two_legs 0 ≡ err (not_ordered e)))
    ⊎ ((order : List String) × (topological_order two_legs ≡ ok order)
        × Ended wallet run_fn run_fn-IsNaming claims two_legs order
            (run_all wallet run_fn true [] claims (suc (length order)) two_legs 0))
run_all-Ended_example = run_all-Ended wallet run_fn run_fn-IsNaming claims two_legs 0
