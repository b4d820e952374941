-- ===== src/Autonomy/Progress/Goals.antt =====
-- When `run` of novapanda/autonomy/orchestrator.py reaches DONE.
use mathlib.Core.Option.{some-injective}
use novapanda.Base.{
  suc, String, true, false, some, List, [], ◌∷◌, ◌≡◌, inl, inr, refl, sym, ap, ◌∙◌, arith, eq_iff,
  Bool-cases, ltb, ◌==◌,
}
use novapanda.Base.Dict.{Dict, get, put, values, get-put, get-empty}
use novapanda.Base.Seq.{length, Among}
use novapanda.Base.Exec.{Result, ok}
use novapanda.Autonomy.Types.{
  TaskSpec, SubTask, SubTaskGraph, Award, AuctionResult, OrchestrationPhase, LegRuntime,
}
use novapanda.Autonomy.Orchestrator.{DagError, Runner, Dag, pass, rounds}
use novapanda.Autonomy.Run.{
  OrchestrationReport, new_legs, new_leg, all_settled, execute, executing_report, closed, auctioned,
  run,
}
use novapanda.Autonomy.Schedule.{Good}
use novapanda.Autonomy.Passes.{Within}
use novapanda.Autonomy.Ends.{Good-first}
use novapanda.Autonomy.Progress.{
  sub_ids, InOrder, IsSettling, Awarded, Tidy, Tidy-put, Unique, pass-Through, values_settled,
}

Tidy-new_legs :
    (tasks ts : List SubTask) (d : Dict LegRuntime)
    → Within tasks ts
    → Tidy tasks d
    → Tidy tasks (new_legs ts d)
unfolding new_legs
Tidy-new_legs tasks [] d within h = h
Tidy-new_legs tasks (t ∷ ts) d within h =
    Tidy-new_legs tasks ts (put d t.sub_id (new_leg t.sub_id)) (λ u m. within u (inr m))
      (Tidy-put tasks d t (new_leg t.sub_id) (within t (inl refl)) h)

Tidy-empty : (tasks : List SubTask) → Tidy tasks []
unfolding Unique
Tidy-empty tasks = record { unique = tt; known = λ p l e. absurd (cc (e, get-empty p)) }

abbrev Leg : String → Dict LegRuntime → Type 0
Leg p d = (l : LegRuntime) × (get d p ≡ some l)

Leg-put : (p k : String) (x : LegRuntime) (d : Dict LegRuntime) → Leg p d → Leg p (put d k x)
Leg-put p k x d (l, e) = elim (Bool-cases (k == p)) [
  | inl same ↦ (x, rw (get-put, same) refl)
  | inr other ↦ (l, rw (get-put, other) e)
]

Leg-kept : (p : String) (ts : List SubTask) (d : Dict LegRuntime) → Leg p d → Leg p (new_legs ts d)
unfolding new_legs
Leg-kept p [] d h = h
Leg-kept p (t ∷ ts) d h = Leg-kept p ts _ (Leg-put p t.sub_id (new_leg t.sub_id) d h)

Leg-new :
    (t : SubTask) (ts : List SubTask) (d : Dict LegRuntime)
    → Among t ts
    → Leg t.sub_id (new_legs ts d)
unfolding new_legs
Leg-new t [] d m = absurd m
Leg-new t (x ∷ ts) d (inl e) = Leg-kept t.sub_id ts _ (
  new_leg x.sub_id,
  rw (get-put, (eq_iff x.sub_id t.sub_id).1 (ap (λ (y : SubTask). y.sub_id) e)) refl,
)
Leg-new t (x ∷ ts) d (inr m) = Leg-new t ts _ m

length-sub_ids : (ts : List SubTask) → length (sub_ids ts) ≡ length ts
length-sub_ids [] = refl
length-sub_ids (t ∷ ts) = ap suc (length-sub_ids ts)

all_settled-Good :
    {R : Type 0} (tasks : List SubTask) (d : Dag R)
    → Good tasks d
    → Tidy tasks d.legs
    → d.done ≡ sub_ids tasks
    → all_settled (values d.legs) ≡ true
all_settled-Good tasks d g tidy e = values_settled d.legs tidy.unique (λ p l f.
    let (m, h, s) = g.done' p (rw e (tidy.known p l f)) in
    let same : m ≡ l = some-injective m l (sym h ∙ f) in
    ap (λ (x : LegRuntime). x.state) (sym same) ∙ s)

module _ {R : Type 0} (runner : Runner R) (spec : TaskSpec) (awards : Dict Award)
    (settling : IsSettling runner) where
  -- The rounds return, with all legs settled.
  pub record Completes (out : Result DagError Unit × Dag R) : Type 0 where
    pub returns : out.0 ≡ ok tt
    pub settled : all_settled (values out.1.legs) ≡ true

  abbrev start : List SubTask → R → Dag R
  start tasks r = record { legs = new_legs tasks []; done = []; runner = r }

  rounds-Completes :
      (tasks : List SubTask) (r : R)
      → Awarded awards tasks
      → InOrder [] tasks
      → Good tasks (start tasks r)
      → Completes (rounds runner spec awards (suc (length tasks)) tasks (start tasks r))
  unfolding rounds
  rounds-Completes [] r awarded order g = record {
    returns = refl;
    settled =
        all_settled-Good [] (start [] r) g (Tidy-new_legs [] [] [] (λ t m. m) (Tidy-empty [])) refl;
  }
  rounds-Completes (t ∷ ts) r awarded order g =
      let tasks = t ∷ ts in
      let tidy = Tidy-new_legs tasks tasks [] (λ u m. m) (Tidy-empty tasks) in
      let h =
        pass-Through runner spec awards settling tasks tasks false (start tasks r) (λ u m. m)
          awarded g (λ u m. Leg-new u tasks [] m) order tidy in
      let d = (pass runner spec awards tasks false (start tasks r)).1 in
      let enough : ltb (length d.done) (length tasks) ≡ false =
        ground (arith, ap length h.all, length-sub_ids ts) in
      let more : ltb (length (start tasks r).done) (length tasks) ≡ true = ground arith in
      let first : (pass runner spec awards tasks false (start tasks r)).0 ≡ ok true =
        h.returns ∙ ap ok (h.progress (λ e. cc e)) in
      rw (more, first, rounds)
        (rw (enough, rounds)
          (record { returns = refl; settled = all_settled-Good tasks d h.good h.tidy h.all }))

module _ {R : Type 0} (runner : Runner R) (split_task : TaskSpec → SubTaskGraph)
    (spec : TaskSpec) where
  abbrev graph : SubTaskGraph
  graph = split_task spec

  closed-done :
      (report : OrchestrationReport) (out : Result DagError Unit)
      → out ≡ ok tt
      → all_settled (values report.legs) ≡ true
      → (closed runner split_task spec report out).phase ≡ OrchestrationPhase.done
  closed-done report out e h = rw e (rw h refl)

  auctioned-done :
      (unfilled : List String) (a : AuctionResult) (r : R)
      → unfilled ≡ []
      → IsSettling runner
      → Awarded a.awards graph.tasks
      → InOrder [] graph.tasks
      → (auctioned runner split_task spec unfilled a r).0.phase ≡ OrchestrationPhase.done
  auctioned-done (u ∷ us) a r e settling awarded order = absurd (cc e)
  auctioned-done [] a r e settling awarded order =
      let c =
        rounds-Completes runner spec a.awards settling graph.tasks r awarded order
          (Good-first runner split_task spec r) in
      closed-done
        (executing_report runner split_task spec a (execute runner split_task spec a.awards r).1) _
        c.returns c.settled

  -- `run` reaches DONE when the graph lists each sub-task once and after its parents, the auctioneer
  -- leaves nothing unfilled and has an award for every sub-task, and the runner settles whatever leg it
  -- starts.
  pub run-reaches_done :
      (hold_auction : SubTaskGraph → TaskSpec → AuctionResult) (r : R)
      → InOrder [] graph.tasks
      → (hold_auction graph spec).unfilled ≡ []
      → Awarded (hold_auction graph spec).awards graph.tasks
      → IsSettling runner
      → (run runner split_task spec (some hold_auction) r).0.phase ≡ OrchestrationPhase.done
  unfolding run
  run-reaches_done hold_auction r order filled awarded settling =
      auctioned-done (hold_auction graph spec).unfilled (hold_auction graph spec) r filled settling
        awarded order
