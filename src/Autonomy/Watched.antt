-- ===== src/Autonomy/Watched.antt =====
-- What `_execute_dag` of novapanda/autonomy/orchestrator.py tells its runner to start, by a runner that
-- keeps a list of it.
use novapanda.Base.{
  ℕ, zero, suc, String, Bool, true, false, List, [], ◌∷◌, ◌++◌, ◌≡◌, ◌≢◌, ◌⊎◌, sym, inl, inr, refl,
  ap, ◌∙◌, contains, Bool-cases, Option-cases, ltb, ◌==◌, arith,
}
use novapanda.Base.Dict.{Dict, get}
use novapanda.Base.Seq.{Among, length}
use novapanda.Base.Exec.{Result, ok, Result-cases}
use novapanda.Base.Texts.{text_or}
use novapanda.Autonomy.Types.{TaskSpec, SubTask, Award, LegRuntime}
use novapanda.Autonomy.Orchestrator.{
  DagError, Runner, Dag, Attempt, attempt, conclude, blocked, exec_leg, pass, rounds,
}
use novapanda.Autonomy.Schedule.{Scheduled, started, Good, exec_leg-Settles, unblocked}
use novapanda.Autonomy.Passes.{Within, Good-Settles, pass-Passed}

-- A runner, and the ids of the sub-tasks that it was told to start, in order.
pub record Log (R : Type 0) : Type 0 where
  pub runner : R
  pub starts : List String

-- The runner with that list.
abbrev pub logged : {R : Type 0} → Runner R → Runner (Log R)
logged runner = record {
  start_leg = λ sub provider client price correlation s.
      let (o, r) = runner.start_leg sub provider client price correlation s.runner in
      (o, record { runner = r; starts = s.starts ++ sub.sub_id ∷ [] });
  poll_leg = λ exchange_id s.
      let (o, r) = runner.poll_leg exchange_id s.runner in (o, record s { runner = r });
}

module _ {R : Type 0} (runner : Runner R) (spec : TaskSpec) where
  -- To attempt a leg tells the runner once to start it.
  attempt-starts :
      (t : SubTask) (award : Award) (s : Log R)
      → (attempt (logged runner) spec t award s).runner.starts ≡ s.starts ++ t.sub_id ∷ []
  unfolding attempt
  attempt-starts t award s = ground arith

runner-conclude :
    {R : Type 0} (t : SubTask) (award : Award) (leg : LegRuntime) (a : Attempt R) (d : Dag R)
    → (conclude t award leg a d).1.runner ≡ a.runner
runner-conclude t award leg a d = elim (Result-cases a.outcome) [
  | inr (x, f) ↦ rw f refl
  | inl (s, f) ↦ elim (Bool-cases (text_or s.state "failed" == "SETTLED")) [
    | inl settled ↦ rw (f, settled) refl
    | inr ended ↦ rw (f, ended) refl
  ]
]

module _ {R : Type 0} (runner : Runner R) (spec : TaskSpec) (awards : Dict Award) where
  -- A sub-task that fails before its leg begins is not started; any other is, once.
  exec_leg-starts :
      (t : SubTask) (d : Dag (Log R))
      → let (out, d') = exec_leg (logged runner) spec awards t d in
        ((d'.runner.starts ≡ d.runner.starts) × (out ≢ ok tt))
        ⊎ (d'.runner.starts ≡ d.runner.starts ++ t.sub_id ∷ [])
  unfolding exec_leg
  exec_leg-starts t d = elim (Option-cases (get awards t.sub_id)) [
    | inl f ↦ rw (f, exec_leg) (inl (refl, λ e. cc e))
    | inr (award, f) ↦ elim (Option-cases (get d.legs t.sub_id)) [
      | inl g ↦ rw (f, g, exec_leg) (inl (refl, λ e. cc e))
      | inr (leg, g) ↦
          let a = attempt (logged runner) spec t award d.runner in
          rw (f, g, exec_leg)
            (inr (
              ap (λ (x : Log R). x.starts) (runner-conclude t award leg a d)
              ∙ attempt-starts runner spec t award d.runner))
    ]
  ]

  module _ (tasks : List SubTask) where
    -- What was started is in order, and where no error ends it, it is what is done.
    pub record Watched {A : Type 0} (out : Result DagError A) (d : Dag (Log R)) : Type 0 where
      pub order : Scheduled tasks d.runner.starts
      pub all_done : (a : A) → out ≡ ok a → d.runner.starts ≡ d.done

    watched :
        {A : Type 0} (out : Result DagError A) (d : Dag (Log R))
        → Good tasks d
        → d.runner.starts ≡ d.done
        → Watched out d
    watched out d g same = record { order = rw same g.order; all_done = λ a e. same }

    exec_leg-Watched :
        (t : SubTask) (d : Dag (Log R))
        → Good tasks d
        → Among t tasks
        → contains t.sub_id d.done ≡ false
        → blocked d.legs t.depends_on ≡ ok false
        → d.runner.starts ≡ d.done
        → Watched
            (exec_leg (logged runner) spec awards t d).0
            (exec_leg (logged runner) spec awards t d).1
    exec_leg-Watched t d g m fresh free same = elim (exec_leg-starts t d) [
      | inl (before, failed) ↦ record {
        order = rw (before ∙ same) g.order;
        all_done = λ a e. absurd (failed e);
      }
      | inr after ↦ record {
        order =
            started t g.order m fresh
              (λ p k. let (l, f, h) = unblocked d.legs t.depends_on free p k in g.settled p l f h)
              (after ∙ ap (λ b. b ++ t.sub_id ∷ []) same);
        all_done = λ a e.
            after
            ∙ ap (λ b. b ++ t.sub_id ∷ []) same
            ∙ sym (exec_leg-Settles (logged runner) spec awards t d e).noted;
      }
    ]

    pass-Watched :
        (ts : List SubTask) (progressed : Bool) (d : Dag (Log R))
        → Within tasks ts
        → Good tasks d
        → d.runner.starts ≡ d.done
        → Watched
            (pass (logged runner) spec awards ts progressed d).0
            (pass (logged runner) spec awards ts progressed d).1
    unfolding pass
    pass-Watched [] progressed d within g same = watched _ d g same
    pass-Watched (t ∷ ts) progressed d within g same =
        elim (Bool-cases (contains t.sub_id d.done)) [
          | inl old ↦ rw (old, pass) (pass-Watched ts progressed d (λ u m. within u (inr m)) g same)
          | inr new ↦ elim (Result-cases (blocked d.legs t.depends_on)) [
            | inr (x, f) ↦ rw (new, f, pass) (watched _ d g same)
            | inl (b, f) ↦ elim (Bool-cases b) [
              | inl wait ↦
                  rw (new, f ∙ ap ok wait, pass)
                    (pass-Watched ts progressed d (λ u m. within u (inr m)) g same)
              | inr free ↦
                  let f' : blocked d.legs t.depends_on ≡ ok false = f ∙ ap ok free in
                  let w = exec_leg-Watched t d g (within t (inl refl)) new f' same in
                  let d' = (exec_leg (logged runner) spec awards t d).1 in
                  elim (Result-cases (exec_leg (logged runner) spec awards t d).0) [
                    | inr (x, h) ↦
                        rw (new, f', h, pass)
                          (record { order = w.order; all_done = λ a e. absurd (cc e) })
                    | inl (u, h) ↦
                        let s = exec_leg-Settles (logged runner) spec awards t d h in
                        rw (new, f', h, pass)
                          (pass-Watched ts true d' (λ v m. within v (inr m))
                            (Good-Settles tasks t d d' g (within t (inl refl)) new f' s)
                            (w.all_done u h))
                  ]
            ]
          ]
        ]

    pub rounds-Watched :
        (n : ℕ) (d : Dag (Log R))
        → Good tasks d
        → d.runner.starts ≡ d.done
        → Watched
            (rounds (logged runner) spec awards n tasks d).0
            (rounds (logged runner) spec awards n tasks d).1
    unfolding rounds
    rounds-Watched zero d g same = watched _ d g same
    rounds-Watched (suc n) d g same = elim (Bool-cases (ltb (length d.done) (length tasks))) [
      | inr all ↦ rw (all, rounds) (watched _ d g same)
      | inl more ↦
          let w = pass-Watched tasks false d (λ t m. m) g same in
          elim (Result-cases (pass (logged runner) spec awards tasks false d).0) [
            | inr (x, f) ↦
                rw (more, f, rounds) (record { order = w.order; all_done = λ a e. absurd (cc e) })
            | inl (now, f) ↦ elim (Bool-cases now) [
              | inr stop ↦
                  rw (more, f ∙ ap ok stop, rounds)
                    (record { order = w.order; all_done = λ a e. absurd (cc e) })
              | inl go ↦
                  rw (more, f ∙ ap ok go, rounds)
                    (rounds-Watched n (pass (logged runner) spec awards tasks false d).1
                      (pass-Passed (logged runner) spec awards tasks tasks false now d (λ t m. m) g
                        f).good
                      (w.all_done now f))
            ]
          ]
    ]
