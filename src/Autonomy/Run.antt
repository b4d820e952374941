-- ===== src/Autonomy/Run.antt =====
-- `run` of `SupplyChainOrchestrator` with its report, `ConcatAggregator` and
-- `InMemoryExchangeRunner`, of novapanda/autonomy/orchestrator.py.
use novapanda.Base.{
  ℕ, suc, ◌+◌, String, Bool, true, ◌&&◌, ◌||◌, Option, none, some, List, [], ◌∷◌, ◌==◌, map,
  or_else, if◌then◌else◌,
}
use novapanda.Base.Dict.{Dict, get, put, values}
use novapanda.Base.Seq.{length}
use novapanda.Base.Exec.{Result, ok, err}
use novapanda.Base.Texts.{text_or}
use novapanda.Canonical.Value.{Json, null, bool, str, arr, obj, Items, nil, cons, done, field}
use novapanda.Canonical.Text.{◌⋅◌, decimal, before}
use novapanda.Autonomy.Types.{
  TaskSpec, SubTask, SubTaskGraph, Award, AuctionResult, OrchestrationPhase, split, auction,
  executing, failed, LegRuntime,
}
use novapanda.Autonomy.Orchestrator.{DagError, Runner, Dag, rounds}

-- `dict(leg_results)`, sorted by the id
unfoldable pub insert_result : String → Json → Dict Json → Dict Json
insert_result k v [] = (k, v) ∷ []
insert_result k v ((j, w) ∷ d) =
    let rest = insert_result k v d in if before j k then (j, w) ∷ rest else (k, v) ∷ (j, w) ∷ d

unfoldable pub sorted_results : Dict Json → Dict Json
sorted_results [] = []
sorted_results ((k, v) ∷ d) = insert_result k v (sorted_results d)

unfoldable pub parts : Dict Json → Items
parts [] = nil
parts ((k, v) ∷ d) = cons (obj (field "sub_id" (str k) (field "result" v done))) (parts d)

-- `ConcatAggregator.aggregate`
unfoldable pub aggregate : String → Dict Json → Json
aggregate goal_id leg_results =
    obj (
      field "goal_id" (str goal_id) (field "parts" (arr (parts (sorted_results leg_results))) done))

pub record BundleView : Type 0 where
  pub bundle_version : String
  pub goal_id : String
  pub correlation_id : String
  pub title : String
  pub exchange_ids : List String
  pub depends_on : Dict (List String)
  pub success_rule : String
  pub vdc_ids : List String

-- `error` of a report
pub data ReportError : Type 0 where
  no_auctioneer not_all_settled : ReportError
  auction_unfilled : List String → ReportError
  raised : DagError → ReportError

pub record OrchestrationReport : Type 0 where
  pub goal_id : String
  pub phase : OrchestrationPhase
  pub graph : SubTaskGraph
  pub auction : Option AuctionResult
  pub legs : Dict LegRuntime
  pub final_delivery : Json
  pub bundle_view : Option BundleView
  pub error : Option ReportError

abbrev pub new_leg : String → LegRuntime
new_leg sub_id = record {
  sub_id = sub_id;
  exchange_id = none;
  vdc_id = none;
  provider = none;
  state = "pending";
  result = null;
  error = none;
}

-- `{t.sub_id: LegRuntime(sub_id=t.sub_id) for t in graph.tasks}`
unfoldable pub new_legs : List SubTask → Dict LegRuntime → Dict LegRuntime
new_legs [] d = d
new_legs (t ∷ ts) d = new_legs ts (put d t.sub_id (new_leg t.sub_id))

unfoldable pub depends_map : List SubTask → Dict (List String) → Dict (List String)
depends_map [] d = d
depends_map (t ∷ ts) d = depends_map ts (put d t.sub_id t.depends_on)

-- the texts that are there and not empty
unfoldable pub texts : List (Option String) → List String
texts [] = []
texts (none ∷ xs) = texts xs
texts (some s ∷ xs) = if s == "" then texts xs else s ∷ texts xs

unfoldable pub to_bundle_view : TaskSpec → SubTaskGraph → Dict LegRuntime → BundleView
to_bundle_view spec graph legs = record {
  bundle_version = "0.1";
  goal_id = spec.goal_id;
  correlation_id = text_or spec.correlation_id spec.goal_id;
  title = "autonomy:" ⋅ spec.goal_id;
  exchange_ids = texts (map (λ (l : LegRuntime). l.exchange_id) (values legs));
  depends_on = depends_map graph.tasks [];
  success_rule = graph.success_rule;
  vdc_ids = texts (map (λ (l : LegRuntime). l.vdc_id) (values legs));
}

unfoldable pub all_settled : List LegRuntime → Bool
all_settled [] = true
all_settled (l ∷ ls) = l.state == "SETTLED" && all_settled ls

unfoldable pub leg_results : Dict LegRuntime → Dict Json
leg_results [] = []
leg_results ((k, l) ∷ d) = (k, l.result) ∷ leg_results d

module _ {R : Type 0} (runner : Runner R) (split_task : TaskSpec → SubTaskGraph)
    (spec : TaskSpec) where
  abbrev pub first_report : OrchestrationReport
  first_report = record {
    goal_id = spec.goal_id;
    phase = split;
    graph = split_task spec;
    auction = none;
    legs = new_legs (split_task spec).tasks [];
    final_delivery = null;
    bundle_view = none;
    error = none;
  }

  abbrev pub give_up : ReportError → OrchestrationReport → OrchestrationReport
  give_up e report = record report { phase = failed; error = some e }

  abbrev pub deliver : OrchestrationReport → OrchestrationReport
  deliver report = record report {
    phase = OrchestrationPhase.done;
    final_delivery = aggregate spec.goal_id (leg_results report.legs);
    bundle_view = some (to_bundle_view spec report.graph report.legs);
  }

  abbrev pub first_dag : R → Dag R
  first_dag r = record { legs = new_legs (split_task spec).tasks []; done = []; runner = r }

  -- The rounds that the `while` may take: one more than there are tasks.
  abbrev pub execute : Dict Award → R → Result DagError Unit × Dag R
  execute awards r =
      rounds runner spec awards (suc (length (split_task spec).tasks)) (split_task spec).tasks
        (first_dag r)

  abbrev pub closed : OrchestrationReport → Result DagError Unit → OrchestrationReport
  closed report (err e) = give_up (raised e) report
  closed report (ok _) =
      if all_settled (values report.legs) then deliver report else give_up not_all_settled report

  abbrev pub executing_report : AuctionResult → Dag R → OrchestrationReport
  executing_report a d = record first_report { auction = some a; phase = executing; legs = d.legs }

  abbrev pub executed : AuctionResult → R → OrchestrationReport × R
  executed a r = let (out, d) = execute a.awards r in (closed (executing_report a d) out, d.runner)

  -- by what is unfilled
  abbrev pub auctioned : List String → AuctionResult → R → OrchestrationReport × R
  auctioned [] a r = executed a r
  auctioned (u ∷ us) a r = (
    give_up (auction_unfilled (u ∷ us)) (record first_report { phase = auction; auction = some a }),
    r,
  )

  -- with the auctioneer, if there is one
  unfoldable pub run :
      Option (SubTaskGraph → TaskSpec → AuctionResult) → R → OrchestrationReport × R
  unfolding aggregate to_bundle_view leg_results all_settled
  run none r = (give_up no_auctioneer first_report, r)
  run (some hold_auction) r =
      let a = hold_auction (split_task spec) spec in auctioned a.unfilled a r

-- `InMemoryExchangeRunner`
pub record InMemoryExchangeRunner : Type 0 where
  pub results : Dict Json
  pub seq : ℕ

abbrev pub in_memory_runner : Runner InMemoryExchangeRunner
in_memory_runner = record {
  start_leg = λ sub provider client price correlation r. (
    ok (record {
      exchange_id = some ("ex-sim-" ⋅ decimal (r.seq + 1));
      state = some "SETTLED";
      vdc_id = some ("vdc-" ⋅ decimal (r.seq + 1));
      result = some (
          or_else (get r.results sub.sub_id)
            (obj (field "ok" (bool true) (field "echo" sub.payload done))));
    }),
    record r { seq = r.seq + 1 },
  );
  poll_leg = λ exchange_id r. (
    ok (record {
      exchange_id = some exchange_id;
      state = some "SETTLED";
      vdc_id = none;
      result = none;
    }),
    r,
  );
}

abbrev is_end : String → Bool
is_end s = s == "SETTLED" || s == "REJECTED" || s == "EXPIRED_REFUNDED" || s == "CANCELLED"

unfoldable pub update_leg : String → String → Option String → Dict LegRuntime → Dict LegRuntime
update_leg exchange_id state vdc_id [] = []
update_leg exchange_id state vdc_id ((k, l) ∷ d) =
    let rest = update_leg exchange_id state vdc_id d in
    if text_or l.exchange_id "" == exchange_id
    then (
      k,
      record l { state = state; vdc_id = if text_or vdc_id "" == "" then l.vdc_id else vdc_id },
    )
      ∷ d
    else (k, l) ∷ rest

unfoldable pub all_ended : Dict LegRuntime → Bool
all_ended [] = true
all_ended ((k, l) ∷ d) = is_end l.state && all_ended d

-- `on_terminal_leg_update`, with an id that is not empty
unfoldable pub on_terminal_leg_update :
    OrchestrationReport → (exchange_id state : String) → Option String → Bool × OrchestrationReport
on_terminal_leg_update report exchange_id state vdc_id =
    let legs = update_leg exchange_id state vdc_id report.legs in
    (all_ended legs, record report { legs = legs })
