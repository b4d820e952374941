-- ===== src/Autonomy/Ends.antt =====
-- How `run` ends.
use mathlib.Core.Option.{some-injective}
use novapanda.Base.{
  ℕ, zero, suc, ◌≤◌, ◌<◌, String, Bool, true, false, Option, none, some, List, [], ◌∷◌, ◌≡◌, ◌≢◌,
  ◌⊎◌, inl, inr, refl, sym, ap, ◌∙◌, contains, arith, eq_iff, Bool-cases, Option-cases, ltb, ◌==◌,
}
use novapanda.Base.Dict.{Dict, get, put, values, get-put, get-empty}
use novapanda.Base.Seq.{length}
use novapanda.Base.Exec.{Result, ok, err, Result-cases}
use novapanda.Base.Texts.{text_or}
use novapanda.Autonomy.Types.{
  TaskSpec, SubTask, SubTaskGraph, Award, AuctionResult, OrchestrationPhase, failed, LegRuntime,
}
use novapanda.Autonomy.Orchestrator.{
  DagError, Runner, Dag, Attempt, attempt, conclude, blocked, exec_leg, pass, rounds, no_rounds,
}
use novapanda.Autonomy.Run.{
  OrchestrationReport, ReportError, no_auctioneer, auction_unfilled, not_all_settled, raised,
  new_legs, new_leg, all_settled, first_dag, execute, closed, executing_report, auctioned, run,
}
use novapanda.Autonomy.Schedule.{Scheduled, nothing, Good}
use novapanda.Autonomy.Passes.{undone, pass-Passed}
use novapanda.Autonomy.Watched.{Log, logged, Watched, rounds-Watched}
use novapanda.Autonomy.Erased.{run-erase}

-- The model's own error, which the code does not raise.
abbrev Real : {A : Type 0} → Result DagError A → Type 0
Real r = r ≢ err no_rounds

blocked-Real : (legs : Dict LegRuntime) (ps : List String) → Real (blocked legs ps)
unfolding blocked
blocked-Real legs [] e = cc e
blocked-Real legs (p ∷ ps) e = elim (Option-cases (get legs p)) [
  | inl f ↦ cc (rw (f, blocked) at e)
  | inr (l, f) ↦ elim (Bool-cases (l.state == "SETTLED")) [
    | inl y ↦ blocked-Real legs ps (rw (f, y, blocked) at e)
    | inr n ↦ cc (rw (f, n, blocked) at e)
  ]
]

conclude-Real :
    {R : Type 0} (t : SubTask) (award : Award) (leg : LegRuntime) (a : Attempt R) (d : Dag R)
    → Real (conclude t award leg a d).0
conclude-Real t award leg a d e = elim (Result-cases a.outcome) [
  | inr (x, f) ↦ cc (rw f at e)
  | inl (s, f) ↦ elim (Bool-cases (text_or s.state "failed" == "SETTLED")) [
    | inl y ↦ cc (rw (f, y) at e)
    | inr n ↦ cc (rw (f, n) at e)
  ]
]

module _ {R : Type 0} (runner : Runner R) (spec : TaskSpec) (awards : Dict Award) where
  exec_leg-Real : (t : SubTask) (d : Dag R) → Real (exec_leg runner spec awards t d).0
  unfolding exec_leg
  exec_leg-Real t d e = elim (Option-cases (get awards t.sub_id)) [
    | inl f ↦ cc (rw (f, exec_leg) at e)
    | inr (a, f) ↦ elim (Option-cases (get d.legs t.sub_id)) [
      | inl g ↦ cc (rw (f, g, exec_leg) at e)
      | inr (l, g) ↦
          conclude-Real t a l (attempt runner spec t a d.runner) d (rw (f, g, exec_leg) at e)
    ]
  ]

  pass-Real : (ts : List SubTask) (p : Bool) (d : Dag R) → Real (pass runner spec awards ts p d).0
  unfolding pass
  pass-Real [] p d e = cc e
  pass-Real (t ∷ ts) p d e = elim (Bool-cases (contains t.sub_id d.done)) [
    | inl old ↦ pass-Real ts p d (rw (old, pass) at e)
    | inr new ↦ elim (Result-cases (blocked d.legs t.depends_on)) [
      | inr (x, f) ↦
          let q : x ≡ no_rounds = cc (rw (new, f, pass) at e) in
          blocked-Real d.legs t.depends_on (f ∙ ap err q)
      | inl (b, f) ↦ elim (Bool-cases b) [
        | inl wait ↦ pass-Real ts p d (rw (new, f ∙ ap ok wait, pass) at e)
        | inr free ↦ elim (Result-cases (exec_leg runner spec awards t d).0) [
          | inr (x, h) ↦
              let q : x ≡ no_rounds = cc (rw (new, f ∙ ap ok free, h, pass) at e) in
              exec_leg-Real t d (h ∙ ap err q)
          | inl (u, h) ↦
              pass-Real ts true (exec_leg runner spec awards t d).1
                (rw (new, f ∙ ap ok free, h, pass) at e)
        ]
      ]
    ]
  ]

  module _ (tasks : List SubTask) where
    -- The rounds end by themselves, and where they return, all tasks were started in order.
    abbrev Rounded : Result DagError Unit × Dag R → Type 0
    Rounded (r, d) = Real r × (r ≡ ok tt → Good tasks d × (length tasks ≤ length d.done))

    rounds-Rounded :
        (n : ℕ) (d : Dag R)
        → Good tasks d
        → undone tasks d.done < n
        → Rounded (rounds runner spec awards n tasks d)
    unfolding rounds
    rounds-Rounded zero d g h = absurd (omega arith)
    rounds-Rounded (suc n) d g h = elim (Bool-cases (ltb (length d.done) (length tasks))) [
      | inr all ↦ rw (all, rounds) (λ e. cc e, λ e. (g, ground arith))
      | inl more ↦ elim (Result-cases (pass runner spec awards tasks false d).0) [
        | inr (x, f) ↦
            rw (more, f, rounds)
              (
                λ e. let q : x ≡ no_rounds = cc e in pass-Real tasks false d (f ∙ ap err q),
                λ e. absurd (cc e),
              )
        | inl (now, f) ↦
            let p = pass-Passed runner spec awards tasks tasks false now d (λ t m. m) g f in
            elim (Bool-cases now) [
              | inl go ↦
                  rw (more, f ∙ ap ok go, rounds)
                    (rounds-Rounded n (pass runner spec awards tasks false d).1 p.good
                      (omega (arith, p.progress go refl, h)))
              | inr stop ↦ rw (more, f ∙ ap ok stop, rounds) (λ e. cc e, λ e. absurd (cc e))
            ]
      ]
    ]

undone-le : (ts : List SubTask) (done : List String) → undone ts done ≤ length ts
unfolding undone
undone-le [] done = omega arith
undone-le (t ∷ ts) done = ground (arith, undone-le ts done)

new_legs-pending :
    (ts : List SubTask) (d : Dict LegRuntime)
    → ((p : String) (l : LegRuntime) → get d p ≡ some l → l.state ≡ "pending")
    → (p : String) (l : LegRuntime) → get (new_legs ts d) p ≡ some l
    → l.state ≡ "pending"
unfolding new_legs
new_legs-pending [] d h p l e = h p l e
new_legs-pending (t ∷ ts) d h p l e =
    new_legs-pending ts (put d t.sub_id (new_leg t.sub_id))
      (λ q m f. elim (Bool-cases (t.sub_id == q)) [
        | inl same ↦
            let is : new_leg t.sub_id ≡ m =
              some-injective (new_leg t.sub_id) m (rw (get-put, same) at f) in
            ap (λ (x : LegRuntime). x.state) (sym is)
        | inr other ↦ h q m (rw (get-put, other) at f)
      ])
      p l e

module _ {R : Type 0} (runner : Runner R) (split_task : TaskSpec → SubTaskGraph)
    (spec : TaskSpec) where
  abbrev tasks : List SubTask
  tasks = (split_task spec).tasks

  pub Good-first : (r : R) → Good tasks (first_dag runner split_task spec r)
  unfolding contains
  Good-first r = record {
    order = nothing;
    settled = λ p l e h.
        let pending = new_legs-pending tasks [] (λ q m f. absurd (cc (f, get-empty q))) p l e in
        let q : ◌≡◌ {A = String} "pending" "SETTLED" = sym pending ∙ h in
        absurd (cc ((eq_iff "pending" "SETTLED").1 q));
    done' = λ p h. absurd (cc h);
  }

  executes :
      (awards : Dict Award) (r : R)
      → Rounded runner spec awards tasks (execute runner split_task spec awards r)
  executes awards r =
      rounds-Rounded runner spec awards tasks _ _ (Good-first r) (omega (arith, undone-le tasks []))

  -- The sub-tasks were started in order; and the report says DONE, with every leg settled and at least
  -- as many starts as the graph has sub-tasks, or it says FAILED, with an error that the code gives.
  abbrev pub Finished : OrchestrationReport → List String → Type 0
  Finished report starts =
      Scheduled tasks starts
      × (((report.phase ≡ OrchestrationPhase.done)
            × (all_settled (values report.legs) ≡ true)
            × (length tasks ≤ length starts))
          ⊎ ((report.phase ≡ failed)
              × ((e : ReportError) × (report.error ≡ some e) × (e ≢ raised no_rounds))))

module _ {R : Type 0} (runner : Runner R) (split_task : TaskSpec → SubTaskGraph)
    (spec : TaskSpec) where
  Finished-closed :
      (report : OrchestrationReport) (out : Result DagError Unit) (d : Dag (Log R))
      (awards : Dict Award)
      → Rounded (logged runner) spec awards (tasks runner split_task spec) (out, d)
      → Watched runner spec awards (tasks runner split_task spec) out d
      → Finished runner split_task spec
          (closed (logged runner) split_task spec report out)
          d.runner.starts
  Finished-closed report (err e) d awards (real, good) w =
      (w.order, inr (refl, (raised e, refl, λ q. let p : e ≡ no_rounds = cc q in real (ap err p))))
  Finished-closed report (ok u) d awards (real, good) w =
      elim (Bool-cases (all_settled (values report.legs))) [
        | inl all ↦
            let (g, enough) = good refl in
            rw all (w.order, inl (refl, all, rw (w.all_done u refl) enough))
        | inr some' ↦ rw some' (w.order, inr (refl, (not_all_settled, refl, λ q. cc q)))
      ]

  abbrev new_log : R → Log R
  new_log r = record { runner = r; starts = [] }

  Finished-auctioned :
      (unfilled : List String) (a : AuctionResult) (r : R)
      → let (report, log) = auctioned (logged runner) split_task spec unfilled a (new_log r) in
        Finished runner split_task spec report log.starts
  Finished-auctioned [] a r =
      let x = execute (logged runner) split_task spec a.awards (new_log r) in
      Finished-closed (executing_report (logged runner) split_task spec a x.1) x.0 x.1 a.awards
        (executes (logged runner) split_task spec a.awards (new_log r))
        (rounds-Watched runner spec a.awards (tasks runner split_task spec) _ _
          (Good-first (logged runner) split_task spec (new_log r)) refl)
  Finished-auctioned (u ∷ us) a r =
      (nothing, inr (refl, (auction_unfilled (u ∷ us), refl, λ q. cc q)))

  -- `run` ends for every runner, auctioneer and split, and never in between. Given the runner with a
  -- list that it keeps of each call to `start_leg`, it gives the same report as with the runner alone,
  -- and the list says: sub-tasks of the graph were started one after the other, each at most once, and
  -- each after all of its parents. The report says DONE, and then every leg is settled and at least as
  -- many sub-tasks were started as the graph has; or it says FAILED and gives an error, and this is
  -- never that the rounds of the model did not suffice.
  pub run-Finished :
      (auctioneer : Option (SubTaskGraph → TaskSpec → AuctionResult)) (r : R)
      → let (report, log) = run (logged runner) split_task spec auctioneer (new_log r) in
        (report ≡ (run runner split_task spec auctioneer r).0)
        × Finished runner split_task spec report log.starts
  unfolding run
  run-Finished none r = (refl, (nothing, inr (refl, (no_auctioneer, refl, λ q. cc q))))
  run-Finished (some hold_auction) r =
      let a = hold_auction (split_task spec) spec in
      (run-erase runner split_task spec (some hold_auction) r [], Finished-auctioned a.unfilled a r)
