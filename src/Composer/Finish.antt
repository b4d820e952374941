-- ===== src/Composer/Finish.antt =====
-- When `run_all` of novapanda/composer.py ends.
use novapanda.Base.{
  ℕ, zero, suc, ◌<◌, String, Bool, true, false, ◌||◌, Option, List, [], ◌∷◌, ◌==◌, ◌≡◌, ◌≢◌, ◌⊎◌,
  inl, inr, refl, ap, ◌∙◌, contains, arith, eq_iff, Bool-cases,
}
use novapanda.Base.Dict.{Dict, put}
use novapanda.Base.Seq.{length, Among}
use novapanda.Base.Exec.{Result, ok, err, Exec, Result-cases}
use novapanda.Bundle.{Bundle, OrderError, topological_order}
use novapanda.Composer.{
  LegResult, ClaimWallet, Reservation, BundleRunState, RunError, not_ordered, is_settled_in,
  ready_legs, run_leg, one_leg, stops, run_legs, run_rounds, new_run, run_all,
}
use novapanda.Composer.Ends.{
  unsettled, Further, settled-put, unsettled-lt, unsettled-length, ready-open, snoc_filled,
  IsNaming, run_leg-Fine,
}

list-cases : (xs : List String) → (xs ≡ []) ⊎ ((x : String) × (ys : List String) × (xs ≡ x ∷ ys))
list-cases [] = inl refl
list-cases (x ∷ xs) = inr (x, xs, refl)

module _ {W : Type 0} (wallet : ClaimWallet W) (run_fn : String → Exec W String LegResult)
    (naming : IsNaming run_fn) (claim_for_leg : String → Option Reservation) where
  abbrev leg_of : String → BundleRunState W → LegResult × BundleRunState W
  leg_of leg run = one_leg wallet run_fn true [] claim_for_leg leg run

  abbrev legs_of : List String → BundleRunState W → Bool × BundleRunState W
  legs_of legs run = run_legs wallet run_fn true [] claim_for_leg legs run

  abbrev stops_at : String → BundleRunState W → Bool
  stops_at leg run = stops wallet run_fn true [] claim_for_leg leg (leg_of leg run).0

  -- A leg that does not stop the run is noted as settled.
  one_leg-settles :
      (leg : String) (run : BundleRunState W)
      → stops_at leg run ≡ false
      → (leg_of leg run).1.exchange_states ≡ put run.exchange_states leg "SETTLED"
  unfolding contains
  one_leg-settles leg run e =
      let result = (run_leg wallet run_fn leg (claim_for_leg leg) run.world).0 in
      elim (Bool-cases (result.state == "SETTLED")) [
        | inr other ↦ absurd (cc (rw other at e))
        | inl settled ↦
            rw
              (
                run_leg-Fine wallet run_fn naming leg (claim_for_leg leg) run.world settled,
                (eq_iff result.state "SETTLED").0 settled,
              )
              refl
      ]

  one_leg-fails :
      (leg : String) (run : BundleRunState W)
      → stops_at leg run ≡ true
      → (leg_of leg run).1.failed_legs ≢ []
  unfolding contains
  one_leg-fails leg run e =
      let result = (run_leg wallet run_fn leg (claim_for_leg leg) run.world).0 in
      elim (Bool-cases (result.state == "SETTLED")) [
        | inl settled ↦ absurd (cc (rw settled at e))
        | inr other ↦ rw other (snoc_filled run.failed_legs leg)
      ]

  pub record LegsSettled (legs : List String) (d e : Dict String) : Type 0 where
    pub further : Further d e
    pub settled : (x : String) → Among x legs → is_settled_in e x ≡ true

  run_legs-LegsSettled :
      (legs : List String) (run : BundleRunState W)
      → (legs_of legs run).0 ≡ false
      → LegsSettled legs run.exchange_states (legs_of legs run).1.exchange_states
  unfolding run_legs
  run_legs-LegsSettled [] run e = record { further = λ p h. h; settled = λ x m. absurd m }
  run_legs-LegsSettled (leg ∷ legs) run e = elim (Bool-cases (stops_at leg run)) [
    | inl stop ↦ absurd (cc (rw (stop, run_legs) at e))
    | inr go ↦
        let next = (leg_of leg run).1 in
        let rest = run_legs-LegsSettled legs next (rw (go, run_legs) at e) in
        let here = one_leg-settles leg run go in
        let first : (p : String)
            → is_settled_in next.exchange_states p
              ≡ (leg == p || is_settled_in run.exchange_states p) =
          λ p. ap (λ d. is_settled_in d p) here ∙ settled-put run.exchange_states leg p in
        rw (go, run_legs)
          (record {
            further = λ p h. rest.further p (ground (arith, first p, h));
            settled = λ x m.
                elim m as (λ _. is_settled_in (legs_of legs next).1.exchange_states x ≡ true) [
                  | inl same ↦ rest.further x (ground (arith, first x, (eq_iff leg x).1 same))
                  | inr later ↦ rest.settled x later
                ];
          })
  ]

  run_legs-fails :
      (legs : List String) (run : BundleRunState W)
      → (legs_of legs run).0 ≡ true
      → (legs_of legs run).1.failed_legs ≢ []
  unfolding run_legs
  run_legs-fails [] run e = absurd (cc e)
  run_legs-fails (leg ∷ legs) run e = elim (Bool-cases (stops_at leg run)) [
    | inl stop ↦ rw (stop, run_legs) (one_leg-fails leg run stop)
    | inr go ↦ rw (go, run_legs) (run_legs-fails legs (leg_of leg run).1 (rw (go, run_legs) at e))
  ]

  -- The run ends by itself: a leg has failed, or nothing is ready.
  pub record Ended (b : Bundle) (order : List String) (out : Result RunError (BundleRunState W))
      : Type 0 where
    pub run : BundleRunState W
    pub returns : out ≡ ok run
    pub over : (run.failed_legs ≢ []) ⊎ (ready_legs b run.exchange_states order ≡ [])

  run_rounds-Ended :
      (n : ℕ) (b : Bundle) (order : List String) (run : BundleRunState W)
      → unsettled run.exchange_states order < n
      → Ended b order (run_rounds wallet run_fn true [] claim_for_leg n b order run)
  unfolding run_rounds
  run_rounds-Ended zero b order run h = absurd (omega arith)
  run_rounds-Ended (suc n) b order run h =
      elim (list-cases (ready_legs b run.exchange_states order)) [
        | inl e ↦ rw (e, run_rounds) (record { run = run; returns = refl; over = inr e })
        | inr (leg, legs, e) ↦ elim (Bool-cases (legs_of (leg ∷ legs) run).0) [
          | inl stop ↦
              rw (e, stop, run_rounds)
                (record {
                  run = (legs_of (leg ∷ legs) run).1;
                  returns = refl;
                  over = inl (run_legs-fails (leg ∷ legs) run stop);
                })
          | inr go ↦
              let s = run_legs-LegsSettled (leg ∷ legs) run go in
              let next = (legs_of (leg ∷ legs) run).1 in
              let (among, old) = ready-open b run.exchange_states order leg (rw e (inl refl)) in
              let less =
                unsettled-lt run.exchange_states next.exchange_states order leg s.further among old
                  (s.settled leg (inl refl)) in
              rw (e, go, run_rounds) (run_rounds-Ended n b order next (omega (arith, less, h)))
        ]
      ]

  -- `run_all` ends where the first failure ends it, no leg is optional and each result of a leg comes
  -- with an exchange: it raises what topological_order raises, or it returns when a leg has failed or
  -- no leg is ready, and this takes at most one round more than there are legs.
  pub run_all-Ended :
      (b : Bundle) (w : W)
      → ((e : OrderError) × (topological_order b ≡ err e)
          × ((n : ℕ) → run_all wallet run_fn true [] claim_for_leg n b w ≡ err (not_ordered e)))
        ⊎ ((order : List String) × (topological_order b ≡ ok order)
            × Ended b order (run_all wallet run_fn true [] claim_for_leg (suc (length order)) b w))
  unfolding run_all
  run_all-Ended b w = elim (Result-cases (topological_order b)) [
    | inr (e, f) ↦ inl (e, f, λ n. rw (f, run_all) refl)
    | inl (order, f) ↦ inr (
      order,
      f,
      rw (f, run_all)
          (run_rounds-Ended (suc (length order)) b order
            (new_run wallet run_fn true [] claim_for_leg w)
            (omega (arith, unsettled-length [] order))),
    )
  ]
