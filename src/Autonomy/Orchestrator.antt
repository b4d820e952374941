-- ===== src/Autonomy/Orchestrator.antt =====
-- `SupplyChainOrchestrator` of novapanda/autonomy/orchestrator.py, over any runner of exchanges and
-- any auctioneer. A set of ids is a list in the order of the additions.
use novapanda.Base.{
  ℕ, suc, zero, String, Bool, true, false, ◌||◌, Option, none, some, List, [], ◌∷◌, ◌++◌, ◌==◌, ltb,
  contains, or_else, if◌then◌else◌,
}
use novapanda.Base.Dict.{Dict, get, put}
use novapanda.Base.Seq.{length}
use novapanda.Base.Exec.{Result, ok, err, Exec}
use novapanda.Base.Texts.{text_or}
use novapanda.Canonical.Value.{Json, null}
use novapanda.Canonical.Text.{◌⋅◌}
use novapanda.Exchange.Fields.{Price}
use novapanda.Autonomy.Types.{TaskSpec, SubTask, Award, LegRuntime}

-- What `_execute_dag` raises, and what the runner raises as `refused`. `no_rounds` is the model's own.
pub data DagError : Type 0 where
  missing_award missing_leg leg_ended : String → DagError
  deadlock no_rounds : DagError
  refused : String → DagError

-- the dicts that `start_leg` and `poll_leg` return
pub record Started : Type 0 where
  pub exchange_id : Option String
  pub state : Option String
  pub vdc_id : Option String
  pub result : Option Json

-- `ExchangeRunner`; what it raises is its text
pub record Runner (R : Type 0) : Type 0 where
  pub start_leg :
      SubTask → (provider client : String) → Price → (correlation : String) → Exec R String Started
  pub poll_leg : String → Exec R String Started

pub record Dag (R : Type 0) : Type 0 where
  pub legs : Dict LegRuntime
  pub done : List String
  pub runner : R

-- What comes of a leg: the exchange, which is noted even if the poll raises, and the last word.
pub record Attempt (R : Type 0) : Type 0 where
  pub exchange_id : Option String
  pub outcome : Result String Started
  pub runner : R

abbrev pub is_settled : Option String → Bool
is_settled none = false
is_settled (some s) = s == "SETTLED"

abbrev ended : Option String → Bool
ended none = false
ended (some s) = s == "SETTLED" || s == "REJECTED"

abbrev or_old {ℓ} : {A : Type ℓ} → Option A → Option A → Option A
or_old none old = old
or_old (some a) old = some a

-- `if polled.get("vdc_id")`
abbrev or_old_text : Option String → Option String → Option String
or_old_text none old = old
or_old_text (some s) old = if s == "" then old else some s

abbrev merged : Started → Started → Started
merged started polled = record {
  exchange_id = started.exchange_id;
  state = or_old polled.state started.state;
  vdc_id = or_old_text polled.vdc_id started.vdc_id;
  result = or_old polled.result started.result;
}

module _ {R : Type 0} (runner : Runner R) where
  abbrev poll_again : Started → String → R → Attempt R
  poll_again started exchange_id r =
      let (p, r') = runner.poll_leg exchange_id r in
      elim p [
        | err e ↦ record { exchange_id = started.exchange_id; outcome = err e; runner = r' }
        | ok polled ↦ record {
          exchange_id = started.exchange_id;
          outcome = ok (merged started polled);
          runner = r';
        }
      ]

  -- the start of a leg, and the poll where it has not ended and has an exchange
  abbrev polled_or : Started → R → Attempt R
  polled_or started r =
      if ended started.state || text_or started.exchange_id "" == ""
      then record { exchange_id = started.exchange_id; outcome = ok started; runner = r }
      else poll_again started (text_or started.exchange_id "") r

  unfoldable pub attempt : TaskSpec → SubTask → Award → R → Attempt R
  attempt spec sub award r =
      let (s, r') =
        runner.start_leg sub award.agent_id spec.client_agent_id award.price
          (text_or spec.correlation_id spec.goal_id) r in
      elim s [
        | err e ↦ record { exchange_id = none; outcome = err e; runner = r' }
        | ok started ↦ polled_or started r'
      ]

-- `state or "failed"`
abbrev end_state : Started → String
end_state started = text_or started.state "failed"

abbrev running_leg : Award → LegRuntime → LegRuntime
running_leg award leg = record leg { state = "running"; provider = some award.agent_id }

abbrev pub settled_leg : Award → Started → LegRuntime → LegRuntime
settled_leg award started leg = record leg {
  provider = some award.agent_id;
  exchange_id = started.exchange_id;
  state = end_state started;
  vdc_id = started.vdc_id;
  result = or_else started.result null;
}

module _ {R : Type 0} where
  abbrev raised_in :
      SubTask → Award → LegRuntime → Attempt R → DagError → Dag R → Result DagError Unit × Dag R
  raised_in sub award leg a e d = (
    err e,
    record d {
      legs =
          put d.legs sub.sub_id
            (record (running_leg award leg) { exchange_id = or_old a.exchange_id leg.exchange_id });
      runner = a.runner;
    },
  )

  abbrev pub finish :
      SubTask → Award → LegRuntime → Attempt R → Started → Dag R → Result DagError Unit × Dag R
  finish sub award leg a started d =
      if end_state started == "SETTLED"
      then (
        ok tt,
        record {
          legs = put d.legs sub.sub_id (settled_leg award started leg);
          done = d.done ++ sub.sub_id ∷ [];
          runner = a.runner;
        },
      )
      else (
        err (leg_ended (end_state started)),
        record d {
          legs = put d.legs sub.sub_id (record (settled_leg award started leg) {
            error = some ("leg ended in " ⋅ end_state started);
          });
          runner = a.runner;
        },
      )

  abbrev pub conclude :
      SubTask → Award → LegRuntime → Attempt R → Dag R → Result DagError Unit × Dag R
  conclude sub award leg a d = elim a.outcome [
    | err e ↦ raised_in sub award leg a (refused e) d
    | ok started ↦ finish sub award leg a started d
  ]

-- `any(report.legs[p].state != SETTLED for p in parents)`
unfoldable pub blocked : Dict LegRuntime → List String → Result DagError Bool
blocked legs [] = ok false
blocked legs (p ∷ ps) =
    let rest = blocked legs ps in
    elim (get legs p) [
      | none ↦ err (missing_leg p)
      | some leg ↦ if leg.state == "SETTLED" then rest else ok true
    ]

module _ {R : Type 0} (runner : Runner R) (spec : TaskSpec) (awards : Dict Award) where
  -- One sub-task, from its award to the end of its leg.
  unfoldable pub exec_leg : SubTask → Dag R → Result DagError Unit × Dag R
  unfolding attempt
  exec_leg sub d = elim (get awards sub.sub_id) [
    | none ↦ (err (missing_award sub.sub_id), d)
    | some award ↦ elim (get d.legs sub.sub_id) [
      | none ↦ (err (missing_leg sub.sub_id), d)
      | some leg ↦ conclude sub award leg (attempt runner spec sub award d.runner) d
    ]
  ]

  -- The `for` over the tasks; the result is `progressed`.
  unfoldable pub pass : List SubTask → Bool → Dag R → Result DagError Bool × Dag R
  unfolding blocked
  pass [] progressed d = (ok progressed, d)
  pass (t ∷ ts) progressed d = elim (contains t.sub_id d.done) [
    | true ↦ pass ts progressed d
    | false ↦ elim (blocked d.legs t.depends_on) [
      | err e ↦ (err e, d)
      | ok true ↦ pass ts progressed d
      | ok false ↦ elim (exec_leg t d).0 [
        | err e ↦ (err e, (exec_leg t d).1)
        | ok _ ↦ pass ts true (exec_leg t d).1
      ]
    ]
  ]

  -- The `while`, with the number of rounds it may take.
  unfoldable pub rounds : ℕ → List SubTask → Dag R → Result DagError Unit × Dag R
  rounds zero tasks d = (err no_rounds, d)
  rounds (suc n) tasks d = elim (ltb (length d.done) (length tasks)) [
    | false ↦ (ok tt, d)
    | true ↦ elim (pass tasks false d).0 [
      | err e ↦ (err e, (pass tasks false d).1)
      | ok false ↦ (err deadlock, (pass tasks false d).1)
      | ok true ↦ rounds n tasks (pass tasks false d).1
    ]
  ]
