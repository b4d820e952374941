-- ===== src/Autonomy/Dispatcher.antt =====
-- `HeuristicTaskDispatcher` of novapanda/autonomy/dispatcher.py. `str(obj)` is a parameter.
use novapanda.Base.{
  ℕ, suc, ◌+◌, ◌/◌, String, Option, none, some, List, [], ◌∷◌, ◌==◌, leb, or_else, if◌then◌else◌,
}
use novapanda.Base.Texts.{text_or}
use novapanda.Canonical.Value.{Json, null, str, arr, obj, Items, nil, cons, Fields, done, field}
use novapanda.Canonical.Text.{◌⋅◌, decimal}
use novapanda.Exchange.Queries.{is_truthy}
use novapanda.Host.Params.{Host}
use novapanda.Autonomy.Types.{TaskStep, TaskSpec, SubTask, SubTaskGraph}

-- `len` of a text
unfoldable pub text_length : String → ℕ
text_length String.[] = 0
text_length (String.◌∷◌ c s) = suc (text_length s)

unfoldable pub items_of : Items → List Json
items_of nil = []
items_of (cons v vs) = v ∷ items_of vs

-- `payload.get(key)`
unfoldable pub member : String → Fields → Option Json
member key done = none
member key (field k v fs) = if k == key then some v else member key fs

abbrev list_of : Option Json → Option (List Json)
list_of (some (arr vs)) = some (items_of vs)
list_of _ = none

abbrev or_next : Option (List Json) → Option (List Json) → Option (List Json)
or_next none b = b
or_next (some a) b = some a

unfoldable pub extract_parts : Json → Option (List Json)
unfolding items_of member
extract_parts (arr vs) = some (items_of vs)
extract_parts (obj fs) = or_next (list_of (member "parts" fs)) (
    or_next (list_of (member "stages" fs))
      (or_next (list_of (member "items" fs)) (list_of (member "chunks" fs))))
extract_parts _ = none

-- `sha256(…)[:12]`
unfoldable pub first_chars : ℕ → String → String
first_chars (suc n) (String.◌∷◌ c s) = String.◌∷◌ c (first_chars n s)
first_chars _ _ = String.[]

module _ (h : Host) (show : Json → String) (default_tokens_per_step : ℕ) where
  abbrev quarter : String → ℕ
  quarter s = if leb 1 (text_length s / 4) then text_length s / 4 else 1

  abbrev or_this : Option Json → Json → Json
  or_this none d = d
  or_this (some v) d = if is_truthy v then v else d

  unfoldable pub estimate_tokens : Json → ℕ
  unfolding text_length member
  estimate_tokens null = default_tokens_per_step
  estimate_tokens (str s) = quarter s
  estimate_tokens (obj fs) =
      quarter (show (or_this (member "text" fs) (or_this (member "content" fs) (obj fs))))
  estimate_tokens v = quarter (show v)

  unfoldable pub sid : String → String → String
  unfolding first_chars
  sid goal_id suffix = "sub-" ⋅ first_chars 12 (h.sha256 (goal_id ⋅ "|" ⋅ suffix))

  abbrev pub step_id : TaskSpec → ℕ → String
  step_id spec i = sid spec.goal_id ("step-" ⋅ decimal i)

  abbrev pub part_id : TaskSpec → ℕ → String
  part_id spec i = sid spec.goal_id ("part-" ⋅ decimal i)

  -- `prev` of the loop; an id is never empty
  abbrev pub after : Option String → List String
  after none = []
  after (some prev) = prev ∷ []

  abbrev tokens_of : TaskStep → Json → ℕ
  tokens_of step payload = elim step.token_estimate [
    | some (suc n) ↦ suc n
    | _ ↦ estimate_tokens payload
  ]

  abbrev tags_of : TaskSpec → Option (List String) → List String
  tags_of spec none = spec.required_tags
  tags_of spec (some []) = spec.required_tags
  tags_of spec (some (t ∷ ts)) = t ∷ ts

  abbrev pub step_task : TaskSpec → ℕ → Option String → TaskStep → SubTask
  step_task spec i prev step = record {
    sub_id = step_id spec i;
    resource_type = text_or step.resource_type spec.resource_type;
    payload = or_else step.payload step.whole;
    depends_on = after prev;
    token_estimate = tokens_of step (or_else step.payload step.whole);
    step_estimate = 1;
    required_tags = tags_of spec step.tags;
    rule_id_hint = step.rule_id;
  }

  unfoldable pub from_steps : TaskSpec → ℕ → Option String → List TaskStep → List SubTask
  from_steps spec i prev [] = []
  from_steps spec i prev (step ∷ steps) =
      step_task spec i prev step ∷ from_steps spec (i + 1) (some (step_id spec i)) steps

  abbrev pub plain_task : TaskSpec → String → Json → SubTask
  plain_task spec sub_id payload = record {
    sub_id = sub_id;
    resource_type = spec.resource_type;
    payload = payload;
    depends_on = [];
    token_estimate = estimate_tokens payload;
    step_estimate = 1;
    required_tags = spec.required_tags;
    rule_id_hint = none;
  }

  -- `_from_parts`, which is only called with `parallel=True`
  unfoldable pub from_parts : TaskSpec → ℕ → List Json → List SubTask
  from_parts spec i [] = []
  from_parts spec i (part ∷ parts) =
      plain_task spec (part_id spec i) part ∷ from_parts spec (i + 1) parts

  abbrev pub split_payload : TaskSpec → Option (List Json) → List SubTask
  split_payload spec (some (p ∷ ps)) = from_parts spec 0 (p ∷ ps)
  split_payload spec _ = plain_task spec (sid spec.goal_id "main") spec.payload ∷ []

  abbrev pub tasks_of : TaskSpec → List TaskStep → List SubTask
  tasks_of spec [] = split_payload spec (extract_parts spec.payload)
  tasks_of spec (s ∷ ss) = from_steps spec 0 none (s ∷ ss)

  unfoldable pub split_task : TaskSpec → SubTaskGraph
  unfolding from_steps from_parts extract_parts sid estimate_tokens
  split_task spec = record {
    goal_id = spec.goal_id;
    tasks = tasks_of spec spec.steps;
    success_rule = "all_settled";
  }
