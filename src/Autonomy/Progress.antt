-- ===== src/Autonomy/Progress.antt =====
-- When `run` reaches DONE: a graph that lists each sub-task once and after its parents, an award for
-- each, and a runner that settles what it starts.
pub mod Goals
pub mod Plans
use mathlib.Core.Path.{subst}
use mathlib.Core.Option.{some-injective}
use mathlib.Core.List.{append-nil, append_assoc}
use novapanda.Base.{
  ℕ, zero, suc, ◌+◌, ◌≤◌, ◌<◌, String, Bool, true, false, not, ◌&&◌, ◌||◌, Option, none, some, List,
  [], ◌∷◌, ◌++◌, ◌≡◌, ◌≢◌, ◌⊎◌, inl, inr, refl, sym, ap, ◌∙◌, contains, if◌then◌else◌, arith,
  eq_iff, eq_refl, Bool-cases, Option-cases, ltb, ◌==◌, map,
}
use novapanda.Base.Dict.{Dict, get, put, values, get-put, get-empty}
use novapanda.Base.Seq.{length, length-append, Among}
use novapanda.Base.Exec.{Result, ok, err, Result-cases}
use novapanda.Exchange.Fields.{Price}
use novapanda.Base.Texts.{text_or}
use novapanda.Autonomy.Types.{
  TaskSpec, SubTask, SubTaskGraph, Award, AuctionResult, OrchestrationPhase, failed, LegRuntime,
}
use novapanda.Autonomy.Orchestrator.{
  DagError, Runner, Started, Dag, Attempt, attempt, finish, conclude, blocked, exec_leg, pass,
  rounds,
}
use novapanda.Autonomy.Run.{
  OrchestrationReport, new_legs, new_leg, all_settled, first_dag, execute, executing_report, closed,
  auctioned, run,
}
use novapanda.Autonomy.Schedule.{Scheduled, Good, Settles, exec_leg-Settles, contains-snoc}
use novapanda.Autonomy.Passes.{Within, Good-Settles}
use novapanda.Autonomy.Ends.{Good-first}

abbrev pub sub_ids : List SubTask → List String
sub_ids ts = map (λ (t : SubTask). t.sub_id) ts

-- Each sub-task once, and after its parents.
unfoldable pub InOrder : List String → List SubTask → Type 0
InOrder before [] = Unit
InOrder before (t ∷ ts) =
    (contains t.sub_id before ≡ false)
    × ((p : String) → contains p t.depends_on ≡ true → contains p before ≡ true)
    × InOrder (before ++ t.sub_id ∷ []) ts

-- Whatever is started settles.
pub record IsSettling {R : Type 0} (runner : Runner R) : Type 0 where
  pub settles :
      (sub : SubTask) (provider client : String) (price : Price) (correlation : String) (r : R)
      → (s : Started) × ((runner.start_leg sub provider client price correlation r).0 ≡ ok s)
        × (s.state ≡ some "SETTLED")

-- Every sub-task has an award.
abbrev pub Awarded : Dict Award → List SubTask → Type 0
Awarded awards ts = (t : SubTask) → Among t ts → (a : Award) × (get awards t.sub_id ≡ some a)

or_right : (a : Bool) {b : Bool} → b ≡ true → (a || b) ≡ true
or_right a h = ground arith

blocked_not :
    (legs : Dict LegRuntime) (ps : List String)
    → ((p : String)
        → contains p ps ≡ true
        → (l : LegRuntime) × (get legs p ≡ some l) × (l.state ≡ "SETTLED"))
    → blocked legs ps ≡ ok false
unfolding blocked contains
blocked_not legs [] h = refl
blocked_not legs (p ∷ ps) h =
    let (l, e, s) = h p (rw eq_refl refl) in
    let q : (l.state == "SETTLED") ≡ true = (eq_iff l.state "SETTLED").1 s in
    rw (e, q, blocked) (blocked_not legs ps (λ x m. h x (or_right (p == x) m)))

unfoldable pub Unique : Dict LegRuntime → Type 0
Unique [] = Unit
Unique ((k, l) ∷ d) = (get d k ≡ none) × Unique d

Unique-put : (d : Dict LegRuntime) (k : String) (l : LegRuntime) → Unique d → Unique (put d k l)
unfolding Unique get put
Unique-put [] k l h = (refl, tt)
Unique-put ((j, x) ∷ d) k l (once, rest) = elim (Bool-cases (j == k)) [
  | inl q ↦ rw q (rw (← (eq_iff j k).0 q) once, rest)
  | inr q ↦
      rw q (get-put d k j l ∙ ground (arith, once, eq_iff j k, eq_iff k j), Unique-put d k l rest)
]

pub values_settled :
    (d : Dict LegRuntime)
    → Unique d
    → ((p : String) (l : LegRuntime) → get d p ≡ some l → l.state ≡ "SETTLED")
    → all_settled (values d) ≡ true
unfolding Unique get values all_settled
values_settled [] u h = refl
values_settled ((k, l) ∷ d) (once, rest) h =
    let e : l.state ≡ "SETTLED" = h k l (rw eq_refl refl) in
    let q : (l.state == "SETTLED") ≡ true = (eq_iff l.state "SETTLED").1 e in
    rw q (
      values_settled d rest (λ p m f. elim (Bool-cases (k == p)) [
        | inl same ↦ absurd (cc (f, once, (eq_iff k p).0 same))
        | inr other ↦ h p m (rw other f)
      ]))

ids-Among : (ts : List SubTask) (t : SubTask) → Among t ts → contains t.sub_id (sub_ids ts) ≡ true
unfolding contains
ids-Among [] t m = absurd m
ids-Among (x ∷ ts) t (inl e) = ground (arith, ap (λ (y : SubTask). y.sub_id) e, eq_refl t.sub_id)
ids-Among (x ∷ ts) t (inr m) = ground (arith, ids-Among ts t m)

-- One leg for an id, and only for ids of sub-tasks.
pub record Tidy (tasks : List SubTask) (legs : Dict LegRuntime) : Type 0 where
  pub unique : Unique legs
  pub known :
      (p : String) (l : LegRuntime) → get legs p ≡ some l → contains p (sub_ids tasks) ≡ true

pub Tidy-put :
    (tasks : List SubTask) (legs : Dict LegRuntime) (t : SubTask) (l : LegRuntime)
    → Among t tasks
    → Tidy tasks legs
    → Tidy tasks (put legs t.sub_id l)
Tidy-put tasks legs t l m h = record {
  unique = Unique-put legs t.sub_id l h.unique;
  known = λ p x e. elim (Bool-cases (t.sub_id == p)) [
    | inl same ↦ rw (← (eq_iff t.sub_id p).0 same) (ids-Among tasks t m)
    | inr other ↦ h.known p x (rw (get-put, other) at e)
  ];
}

module _ {R : Type 0} (runner : Runner R) (spec : TaskSpec) (awards : Dict Award)
    (settling : IsSettling runner) where
  attempt-settles :
      (t : SubTask) (a : Award) (r : R)
      → (s : Started) × ((attempt runner spec t a r).outcome ≡ ok s) × (s.state ≡ some "SETTLED")
  unfolding attempt
  attempt-settles t a r =
      let (s, e, h) =
        settling.settles t a.agent_id spec.client_agent_id a.price
          (text_or spec.correlation_id spec.goal_id) r in
      (s, rw (e, attempt) (rw h refl), h)

  exec_leg-settles :
      (t : SubTask) (a : Award) (l : LegRuntime) (d : Dag R)
      → get awards t.sub_id ≡ some a
      → get d.legs t.sub_id ≡ some l
      → (exec_leg runner spec awards t d).0 ≡ ok tt
  unfolding exec_leg
  exec_leg-settles t a l d e f =
      let (s, g, h) = attempt-settles t a d.runner in
      rw (e, f, exec_leg) (rw (g, conclude) (rw (h, finish) refl))

  -- All legs of the sub-tasks are there.
  abbrev Legged : List SubTask → Dag R → Type 0
  Legged ts d = (t : SubTask) → Among t ts → (l : LegRuntime) × (get d.legs t.sub_id ≡ some l)

  Legged-Settles :
      (ts : List SubTask) (t : SubTask) (d d' : Dag R)
      → Settles t d d'
      → Legged (t ∷ ts) d
      → Legged ts d'
  Legged-Settles ts t d d' s legged u m = elim (Bool-cases (t.sub_id == u.sub_id)) [
    | inl same ↦ (s.leg, rw (s.legs, get-put, same) refl)
    | inr other ↦ let (l, e) = legged u (inr m) in (l, rw (s.legs, get-put, other) e)
  ]

  -- One pass starts all that is left.
  pub record Through (tasks ts : List SubTask) (p : Bool) (d : Dag R)
      (out : Result DagError Bool × Dag R) : Type 0 where
    pub now : Bool
    pub returns : out.0 ≡ ok now
    pub good : Good tasks out.1
    pub all : out.1.done ≡ d.done ++ sub_ids ts
    pub keeps : p ≡ true → now ≡ true
    pub progress : ts ≢ [] → now ≡ true
    pub tidy : Tidy tasks out.1.legs

  abbrev run_pass : List SubTask → Bool → Dag R → Result DagError Bool × Dag R
  run_pass ts p d = pass runner spec awards ts p d

  pub pass-Through :
      (tasks ts : List SubTask) (p : Bool) (d : Dag R)
      → Within tasks ts
      → Awarded awards ts
      → Good tasks d
      → Legged ts d
      → InOrder d.done ts
      → Tidy tasks d.legs
      → Through tasks ts p d (run_pass ts p d)
  unfolding pass InOrder
  pass-Through tasks [] p d within awarded g legged order tidy = record {
    now = p;
    returns = refl;
    good = g;
    all = sym (append-nil d.done);
    keeps = λ e. e;
    progress = λ h. absurd (h refl);
    tidy = tidy;
  }
  pass-Through tasks (t ∷ ts) p d within awarded g legged (new, parents, order) tidy =
      let (a, e) = awarded t (inl refl) in
      let (l, f) = legged t (inl refl) in
      let free = blocked_not d.legs t.depends_on (λ q m. g.done' q (parents q m)) in
      let h = exec_leg-settles t a l d e f in
      let s = exec_leg-Settles runner spec awards t d h in
      let d' = (exec_leg runner spec awards t d).1 in
      let g' = Good-Settles tasks t d d' g (within t (inl refl)) new free s in
      let rest =
        pass-Through tasks ts true d' (λ u m. within u (inr m)) (λ u m. awarded u (inr m)) g'
          (Legged-Settles ts t d d' s legged) (rw s.noted order)
          (rw s.legs (Tidy-put tasks d.legs t s.leg (within t (inl refl)) tidy)) in
      rw (new, free, h, pass)
        (record {
          now = rest.now;
          returns = rest.returns;
          good = rest.good;
          all =
              rest.all
              ∙ ap (λ x. x ++ sub_ids ts) s.noted
              ∙ append_assoc d.done (t.sub_id ∷ []) (sub_ids ts);
          keeps = λ e. rest.keeps refl;
          progress = λ ne. rest.keeps refl;
          tidy = rest.tidy;
        })
