-- ===== src/Tests/Autonomy.antt =====
-- The theorems on the orchestrator, for a task of two steps.
use novapanda.Base.{
  suc, zero, ◌≢◌, arith, String, none, some, [], ◌∷◌, ◌≡◌, inl, inr, refl, sym, ap, eq_iff,
}
use novapanda.Base.Int.{pos}
use novapanda.Base.Dict.{get}
use novapanda.Canonical.Value.{Json, null, str}
use novapanda.Canonical.Text.{digit, decimal}
use novapanda.Host.Params.{Host}
use novapanda.Tests.Scene.{toy_host}
use novapanda.Autonomy.Types.{
  TaskStep, TaskSpec, SubTask, SubTaskGraph, Award, AuctionResult, OrchestrationPhase,
}
use novapanda.Autonomy.Dispatcher.{
  extract_parts, first_chars, sid, step_id, part_id, from_steps, split_task,
}
use novapanda.Autonomy.Run.{run, InMemoryExchangeRunner, in_memory_runner}
use novapanda.Autonomy.Watched.{logged}
use novapanda.Autonomy.Ends.{Finished, run-Finished}
use novapanda.Autonomy.Progress.{InOrder, IsSettling, Awarded}
use novapanda.Autonomy.Progress.Plans.{DistinctBelow, parts_count, split_task-InOrder}
use novapanda.Autonomy.Progress.Goals.{run-reaches_done}

-- every text is its own hash
abbrev text_host : Host
text_host = record toy_host { sha256 = λ s. s }

abbrev show : Json → String
show v = ""

abbrev step : String → TaskStep
step s = record {
  whole = str s;
  payload = none;
  resource_type = none;
  tags = none;
  token_estimate = none;
  rule_id = none;
}

abbrev spec : TaskSpec
spec = record {
  goal_id = "g";
  resource_type = "text";
  payload = null;
  client_agent_id = "c";
  required_tags = [];
  steps = step "a" ∷ step "b" ∷ [];
  correlation_id = none;
}

abbrev split_it : TaskSpec → SubTaskGraph
split_it = split_task text_host show 256

abbrev award : Award
award = record { agent_id = "p"; price = record { amount = pos 1; currency = "USD" } }

abbrev award_all : SubTaskGraph → TaskSpec → AuctionResult
award_all graph s = record {
  awards =
      (step_id text_host show 256 spec 0, award) ∷ (step_id text_host show 256 spec 1, award) ∷ [];
  unfilled = [];
}

abbrev runner : InMemoryExchangeRunner
runner = record { results = []; seq = 0 }

in_memory-IsSettling : IsSettling in_memory_runner
in_memory-IsSettling = record {
  settles = λ sub provider client price correlation r. (_, refl, refl);
}

differ : step_id text_host show 256 spec 0 ≢ step_id text_host show 256 spec 1
unfolding sid first_chars digit decimal
differ e = cc ((eq_iff (step_id text_host show 256 spec 0) (step_id text_host show 256 spec 1)).1 e)

steps_differ : DistinctBelow (step_id text_host show 256 spec) 2
steps_differ zero (suc zero) lt lt' = differ
steps_differ zero zero lt lt' = absurd (omega (arith, lt))
steps_differ (suc j) zero lt lt' = absurd (omega (arith, lt))
steps_differ (suc j) (suc zero) lt lt' = absurd (omega (arith, lt))
steps_differ j (suc (suc k)) lt lt' = absurd (omega (arith, lt'))

no_parts : DistinctBelow (part_id text_host show 256 spec) (parts_count text_host show 256 spec)
unfolding extract_parts
no_parts j k lt lt' = absurd (omega (arith, lt'))

split_task-InOrder_example : InOrder [] (split_it spec).tasks
split_task-InOrder_example = split_task-InOrder text_host show 256 spec steps_differ no_parts

all-Awarded : Awarded (award_all (split_it spec) spec).awards (split_it spec).tasks
unfolding split_task from_steps get sid first_chars digit decimal
all-Awarded t (inl e) =
    (award, ap (λ (x : SubTask). get (award_all (split_it spec) spec).awards x.sub_id) (sym e))
all-Awarded t (inr (inl e)) =
    (award, ap (λ (x : SubTask). get (award_all (split_it spec) spec).awards x.sub_id) (sym e))
all-Awarded t (inr (inr e)) = absurd e

run-reaches_done_example :
    (run in_memory_runner split_it spec (some award_all) runner).0.phase ≡ OrchestrationPhase.done
run-reaches_done_example =
    run-reaches_done in_memory_runner split_it spec award_all runner split_task-InOrder_example refl
      all-Awarded in_memory-IsSettling

run-Finished_example :
    let (report, log) =
      run
        (logged in_memory_runner)
        split_it
        spec
        (some award_all)
        (record { runner = runner; starts = [] }) in
    (report ≡ (run in_memory_runner split_it spec (some award_all) runner).0)
    × Finished in_memory_runner split_it spec report log.starts
run-Finished_example = run-Finished in_memory_runner split_it spec (some award_all) runner
