-- ===== src/Autonomy/Schedule.antt =====
-- In which order `_execute_dag` starts the sub-tasks.
use novapanda.Base.{
  String, Bool, true, false, ◌||◌, some, List, [], ◌∷◌, ◌++◌, ◌==◌, ◌≡◌, inl, inr, refl, contains,
  arith, eq_iff, Bool-cases, Option-cases,
}
use novapanda.Base.Dict.{Dict, get, put}
use novapanda.Base.Seq.{Among}
use novapanda.Base.Exec.{ok, Result-cases}
use novapanda.Base.Texts.{text_or}
use novapanda.Autonomy.Types.{TaskSpec, SubTask, Award, LegRuntime}
use novapanda.Autonomy.Orchestrator.{
  Runner, Started, Dag, Attempt, attempt, settled_leg, finish, conclude, blocked, exec_leg,
}

-- The ids of sub-tasks that were started one after the other: each once, and after its parents.
pub data Scheduled (tasks : List SubTask) : List String → Type 0 where
  nothing : Scheduled tasks []
  started :
      {before after : List String} (t : SubTask)
      → Scheduled tasks before
      → Among t tasks
      → contains t.sub_id before ≡ false
      → ((p : String) → contains p t.depends_on ≡ true → contains p before ≡ true)
      → after ≡ before ++ t.sub_id ∷ []
      → Scheduled tasks after

pub contains-snoc :
    (p k : String) (xs : List String) → contains p (xs ++ k ∷ []) ≡ (contains p xs || k == p)
unfolding contains
contains-snoc p k [] = ground arith
contains-snoc p k (x ∷ xs) = ground (arith, contains-snoc p k xs)

-- The leg of the sub-task is settled, its id is noted as done, and nothing else is touched.
pub record Settles {R : Type 0} (t : SubTask) (d d' : Dag R) : Type 0 where
  pub leg : LegRuntime
  pub settled : leg.state ≡ "SETTLED"
  pub legs : d'.legs ≡ put d.legs t.sub_id leg
  pub noted : d'.done ≡ d.done ++ t.sub_id ∷ []

module _ {R : Type 0} where
  finish-Settles :
      (t : SubTask) (award : Award) (leg : LegRuntime) (a : Attempt R) (s : Started) (d : Dag R)
      → (finish t award leg a s d).0 ≡ ok tt
      → Settles t d (finish t award leg a s d).1
  finish-Settles t award leg a s d e = elim (Bool-cases (text_or s.state "failed" == "SETTLED")) [
    | inr no' ↦ absurd (cc (rw no' at e))
    | inl yes' ↦ rw yes' (record {
      leg = settled_leg award s leg;
      settled = (eq_iff (text_or s.state "failed") "SETTLED").0 yes';
      legs = refl;
      noted = refl;
    })
  ]

  conclude-Settles :
      (t : SubTask) (award : Award) (leg : LegRuntime) (a : Attempt R) (d : Dag R)
      → (conclude t award leg a d).0 ≡ ok tt
      → Settles t d (conclude t award leg a d).1
  conclude-Settles t award leg a d e = elim (Result-cases a.outcome) [
    | inr (x, f) ↦ absurd (cc (rw f at e))
    | inl (s, f) ↦ rw f (finish-Settles t award leg a s d (rw f at e))
  ]

module _ {R : Type 0} (runner : Runner R) (spec : TaskSpec) (awards : Dict Award) where
  pub exec_leg-Settles :
      (t : SubTask) (d : Dag R)
      → (exec_leg runner spec awards t d).0 ≡ ok tt
      → Settles t d (exec_leg runner spec awards t d).1
  unfolding exec_leg
  exec_leg-Settles t d e = elim (Option-cases (get awards t.sub_id)) [
    | inl missing ↦ absurd (cc (rw (missing, exec_leg) at e))
    | inr (award, f) ↦ elim (Option-cases (get d.legs t.sub_id)) [
      | inl missing ↦ absurd (cc (rw (f, missing, exec_leg) at e))
      | inr (leg, g) ↦
          rw (f, g, exec_leg)
            (conclude-Settles t award leg (attempt runner spec t award d.runner) d
              (rw (f, g, exec_leg) at e))
    ]
  ]

-- What is settled is done, what is done was scheduled.
pub record Good {R : Type 0} (tasks : List SubTask) (d : Dag R) : Type 0 where
  pub order : Scheduled tasks d.done
  pub settled :
      (p : String) (l : LegRuntime)
      → get d.legs p ≡ some l
      → l.state ≡ "SETTLED"
      → contains p d.done ≡ true
  pub done' :
      (p : String)
      → contains p d.done ≡ true
      → (l : LegRuntime) × (get d.legs p ≡ some l) × (l.state ≡ "SETTLED")

pub unblocked :
    (legs : Dict LegRuntime) (ps : List String)
    → blocked legs ps ≡ ok false
    → (p : String) → contains p ps ≡ true
    → (l : LegRuntime) × (get legs p ≡ some l) × (l.state ≡ "SETTLED")
unfolding blocked contains
unblocked legs [] e p m = absurd (cc m)
unblocked legs (q ∷ ps) e p m = elim (Option-cases (get legs q)) [
  | inl missing ↦ absurd (cc (rw (missing, blocked) at e))
  | inr (l, f) ↦ elim (Bool-cases (l.state == "SETTLED")) [
    | inr no' ↦ absurd (cc (rw (f, no', blocked) at e))
    | inl yes' ↦ elim (Bool-cases (q == p)) [
      | inl same ↦ (l, rw (← (eq_iff q p).0 same) f, (eq_iff l.state "SETTLED").0 yes')
      | inr other ↦ unblocked legs ps (rw (f, yes', blocked) at e) p (rw other at m)
    ]
  ]
]

pub or_true : (b : Bool) → (b || true) ≡ true
or_true b = ground arith

pub or_false : {b : Bool} → b ≡ true → (b || false) ≡ true
or_false h = ground arith
