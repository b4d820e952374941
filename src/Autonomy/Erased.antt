-- ===== src/Autonomy/Erased.antt =====
-- A runner that keeps a list of what it was told to start does what it does without the list.
use novapanda.Base.{
  ℕ, zero, suc, String, Bool, true, false, Option, none, some, List, [], ◌∷◌, ◌≡◌, inl, inr, refl,
  ap, ◌∙◌, sym, contains, Bool-cases, Option-cases, ltb, ◌==◌, arith,
}
use novapanda.Base.Dict.{Dict, get}
use novapanda.Base.Seq.{length}
use novapanda.Base.Exec.{Result, ok, err, Result-cases}
use novapanda.Base.Texts.{text_or}
use novapanda.Autonomy.Types.{TaskSpec, SubTask, SubTaskGraph, Award, AuctionResult, LegRuntime}
use novapanda.Autonomy.Orchestrator.{
  DagError, deadlock, Runner, Dag, Attempt, attempt, conclude, blocked, exec_leg, pass, rounds,
}
use novapanda.Autonomy.Run.{run, auctioned, closed, executing_report, first_dag}
use novapanda.Autonomy.Watched.{Log, logged}

-- What is left without the list.
abbrev erase_attempt : {R : Type 0} → Attempt (Log R) → Attempt R
erase_attempt a = record {
  exchange_id = a.exchange_id;
  outcome = a.outcome;
  runner = a.runner.runner;
}

abbrev erase : {R : Type 0} → Dag (Log R) → Dag R
erase d = record { legs = d.legs; done = d.done; runner = d.runner.runner }

abbrev erased : {A R : Type 0} → Result DagError A × Dag (Log R) → Result DagError A × Dag R
erased p = (p.0, erase p.1)

conclude-erase :
    {R : Type 0} (t : SubTask) (award : Award) (leg : LegRuntime) (a : Attempt (Log R))
    (d : Dag (Log R))
    → erased (conclude t award leg a d) ≡ conclude t award leg (erase_attempt a) (erase d)
conclude-erase t award leg a d = elim (Result-cases a.outcome) [
  | inr (x, f) ↦ rw f refl
  | inl (s, f) ↦ elim (Bool-cases (text_or s.state "failed" == "SETTLED")) [
    | inl settled ↦ rw (f, settled) refl
    | inr ended ↦ rw (f, ended) refl
  ]
]

module _ {R : Type 0} (runner : Runner R) (spec : TaskSpec) where
  attempt-erase :
      (t : SubTask) (award : Award) (s : Log R)
      → erase_attempt (attempt (logged runner) spec t award s)
        ≡ attempt runner spec t award s.runner
  unfolding attempt
  attempt-erase t award s = ground arith

  module _ (awards : Dict Award) where
    exec_leg-erase :
        (t : SubTask) (d : Dag (Log R))
        → erased (exec_leg (logged runner) spec awards t d)
          ≡ exec_leg runner spec awards t (erase d)
    unfolding exec_leg
    exec_leg-erase t d = elim (Option-cases (get awards t.sub_id)) [
      | inl f ↦ rw (f, exec_leg) refl
      | inr (award, f) ↦ elim (Option-cases (get d.legs t.sub_id)) [
        | inl g ↦ rw (f, g, exec_leg) refl
        | inr (leg, g) ↦
            rw (f, g, exec_leg)
              (conclude-erase t award leg (attempt (logged runner) spec t award d.runner) d
                ∙ ap (λ a. conclude t award leg a (erase d)) (attempt-erase t award d.runner))
      ]
    ]

    pass-erase :
        (ts : List SubTask) (p : Bool) (d : Dag (Log R))
        → erased (pass (logged runner) spec awards ts p d) ≡ pass runner spec awards ts p (erase d)
    unfolding pass
    pass-erase [] p d = refl
    pass-erase (t ∷ ts) p d = elim (Bool-cases (contains t.sub_id d.done)) [
      | inl old ↦ rw (old, pass) (pass-erase ts p d)
      | inr new ↦ elim (Result-cases (blocked d.legs t.depends_on)) [
        | inr (x, f) ↦ rw (new, f, pass) refl
        | inl (b, f) ↦ elim (Bool-cases b) [
          | inl wait ↦ rw (new, f ∙ ap ok wait, pass) (pass-erase ts p d)
          | inr free ↦
              let e = exec_leg-erase t d in
              let out = ap (λ (q : Result DagError Unit × Dag R). q.0) e in
              let after = ap (λ (q : Result DagError Unit × Dag R). q.1) e in
              elim (Result-cases (exec_leg (logged runner) spec awards t d).0) [
                | inr (x, h) ↦
                    rw (new, f ∙ ap ok free, h, sym out ∙ h, pass) (ap (λ q. (err x, q)) after)
                | inl (u, h) ↦
                    rw (new, f ∙ ap ok free, h, sym out ∙ h, pass)
                      (pass-erase ts true (exec_leg (logged runner) spec awards t d).1
                        ∙ ap (pass runner spec awards ts true) after)
              ]
        ]
      ]
    ]

    rounds-erase :
        (n : ℕ) (tasks : List SubTask) (d : Dag (Log R))
        → erased (rounds (logged runner) spec awards n tasks d)
          ≡ rounds runner spec awards n tasks (erase d)
    unfolding rounds
    rounds-erase zero tasks d = refl
    rounds-erase (suc n) tasks d = elim (Bool-cases (ltb (length d.done) (length tasks))) [
      | inr all ↦ rw (all, rounds) refl
      | inl more ↦
          let e = pass-erase tasks false d in
          let out = ap (λ (q : Result DagError Bool × Dag R). q.0) e in
          let after = ap (λ (q : Result DagError Bool × Dag R). q.1) e in
          elim (Result-cases (pass (logged runner) spec awards tasks false d).0) [
            | inr (x, f) ↦ rw (more, f, sym out ∙ f, rounds) (ap (λ q. (err x, q)) after)
            | inl (now, f) ↦ elim (Bool-cases now) [
              | inr stop ↦
                  rw (more, f ∙ ap ok stop, sym out ∙ f ∙ ap ok stop, rounds)
                    (ap (λ q. (err deadlock, q)) after)
              | inl go ↦
                  rw (more, f ∙ ap ok go, sym out ∙ f ∙ ap ok go, rounds)
                    (rounds-erase n tasks (pass (logged runner) spec awards tasks false d).1
                      ∙ ap (rounds runner spec awards n tasks) after)
            ]
          ]
    ]

auctioned-erase :
    {R : Type 0} (runner : Runner R) (split_task : TaskSpec → SubTaskGraph) (spec : TaskSpec)
    (unfilled : List String) (a : AuctionResult) (s : Log R)
    → (auctioned (logged runner) split_task spec unfilled a s).0
      ≡ (auctioned runner split_task spec unfilled a s.runner).0
auctioned-erase runner split_task spec [] a s =
    ap (λ q. closed runner split_task spec (executing_report runner split_task spec a q.1) q.0)
      (rounds-erase runner spec a.awards (suc (length (split_task spec).tasks))
        (split_task spec).tasks (first_dag (logged runner) split_task spec s))
auctioned-erase runner split_task spec (u ∷ us) a s = refl

-- The report is the same with the list and without it.
pub run-erase :
    {R : Type 0} (runner : Runner R) (split_task : TaskSpec → SubTaskGraph) (spec : TaskSpec)
    (auctioneer : Option (SubTaskGraph → TaskSpec → AuctionResult)) (r : R) (starts : List String)
    → (run (logged runner) split_task spec auctioneer (record { runner = r; starts = starts })).0
      ≡ (run runner split_task spec auctioneer r).0
unfolding run
run-erase runner split_task spec none r starts = refl
run-erase runner split_task spec (some hold_auction) r starts =
    let a = hold_auction (split_task spec) spec in
    auctioned-erase runner split_task spec a.unfilled a (record { runner = r; starts = starts })
