-- ===== src/Autonomy/Progress/Plans.antt =====
-- The graphs that `split` of novapanda/autonomy/dispatcher.py makes.
use novapanda.Base.{
  ℕ, ◌+◌, ◌≤◌, ◌<◌, String, true, false, Option, none, some, List, [], ◌∷◌, ◌++◌, ◌==◌, ◌≡◌, ◌≢◌,
  inl, inr, refl, ◌∙◌, contains, arith, eq_iff, Bool-cases,
}
use novapanda.Base.Seq.{length}
use novapanda.Canonical.Value.{Json}
use novapanda.Host.Params.{Host}
use novapanda.Autonomy.Types.{TaskStep, TaskSpec}
use novapanda.Autonomy.Dispatcher.{
  extract_parts, step_id, part_id, after, from_steps, from_parts, split_payload, tasks_of,
  split_task,
}
use novapanda.Autonomy.Schedule.{contains-snoc}
use novapanda.Autonomy.Progress.{InOrder}

-- The first `n` ids are different.
abbrev pub DistinctBelow : (ℕ → String) → ℕ → Type 0
DistinctBelow id n = (j k : ℕ) → j < k → k < n → id j ≢ id k

-- None of the ids from `i` up to `n` is in the list.
abbrev FreshFrom : (ℕ → String) → ℕ → ℕ → List String → Type 0
FreshFrom id i n before = (k : ℕ) → i ≤ k → k < n → contains (id k) before ≡ false

FreshFrom-snoc :
    (id : ℕ → String) (i n : ℕ) (before : List String)
    → DistinctBelow id n
    → FreshFrom id i n before
    → FreshFrom id (i + 1) n (before ++ id i ∷ [])
FreshFrom-snoc id i n before distinct fresh k le lt =
    let old = fresh k (omega (arith, le)) lt in
    let new = distinct i k (omega (arith, le)) lt in
    elim (Bool-cases (id i == id k)) [
      | inl same ↦ absurd (new ((eq_iff (id i) (id k)).0 same))
      | inr other ↦ contains-snoc (id k) (id i) before ∙ ground (arith, old, other)
    ]

contains-last :
    (p k : String) (before : List String)
    → contains p (k ∷ []) ≡ true
    → contains p (before ++ k ∷ []) ≡ true
unfolding contains
contains-last p k before e = ground (arith, contains-snoc p k before, e)

module _ (h : Host) (show : Json → String) (default_tokens_per_step : ℕ) (spec : TaskSpec) where
  from_parts-InOrder :
      (i n : ℕ) (before : List String) (parts : List Json)
      → i + length parts ≡ n
      → DistinctBelow (part_id h show default_tokens_per_step spec) n
      → FreshFrom (part_id h show default_tokens_per_step spec) i n before
      → InOrder before (from_parts h show default_tokens_per_step spec i parts)
  unfolding InOrder from_parts contains
  from_parts-InOrder i n before [] e distinct fresh = tt
  from_parts-InOrder i n before (p ∷ ps) e distinct fresh = (
    fresh i (omega arith) (omega (arith, e)),
    λ q m. absurd (cc m),
    from_parts-InOrder (i + 1) n _ ps (omega (arith, e)) distinct
        (FreshFrom-snoc _ i n before distinct fresh),
  )

  from_steps-InOrder :
      (i n : ℕ) (prev : Option String) (before : List String) (steps : List TaskStep)
      → i + length steps ≡ n
      → DistinctBelow (step_id h show default_tokens_per_step spec) n
      → FreshFrom (step_id h show default_tokens_per_step spec) i n before
      → ((p : String)
          → contains p (after h show default_tokens_per_step prev) ≡ true
          → contains p before ≡ true)
      → InOrder before (from_steps h show default_tokens_per_step spec i prev steps)
  unfolding InOrder from_steps
  from_steps-InOrder i n prev before [] e distinct fresh parents = tt
  from_steps-InOrder i n prev before (s ∷ ss) e distinct fresh parents = (
    fresh i (omega arith) (omega (arith, e)),
    parents,
    from_steps-InOrder (i + 1) n (some (step_id h show default_tokens_per_step spec i)) _ ss
        (omega (arith, e)) distinct (FreshFrom-snoc _ i n before distinct fresh)
        (λ p m. contains-last p (step_id h show default_tokens_per_step spec i) before m),
  )

  -- How many parts or steps there are.
  abbrev pub parts_count : ℕ
  parts_count = elim (extract_parts spec.payload) [ none ↦ 0 | some ps ↦ length ps ]

  payload-InOrder :
      (parts : Option (List Json)) (n : ℕ)
      → elim parts [ none ↦ 0 | some ps ↦ length ps ] ≡ n
      → DistinctBelow (part_id h show default_tokens_per_step spec) n
      → InOrder [] (split_payload h show default_tokens_per_step spec parts)
  unfolding InOrder contains
  payload-InOrder none n e distinct = (refl, λ q m. absurd (cc m), tt)
  payload-InOrder (some []) n e distinct = (refl, λ q m. absurd (cc m), tt)
  payload-InOrder (some (p ∷ ps)) n e distinct =
      from_parts-InOrder 0 n [] (p ∷ ps) (omega (arith, e)) distinct (λ k le lt. refl)

  tasks-InOrder :
      (steps : List TaskStep)
      → DistinctBelow (step_id h show default_tokens_per_step spec) (length steps)
      → DistinctBelow (part_id h show default_tokens_per_step spec) parts_count
      → InOrder [] (tasks_of h show default_tokens_per_step spec steps)
  unfolding contains
  tasks-InOrder [] ids part_ids =
      payload-InOrder (extract_parts spec.payload) parts_count refl part_ids
  tasks-InOrder (s ∷ ss) ids part_ids =
      from_steps-InOrder 0 _ none [] (s ∷ ss) (omega arith) ids (λ k le lt. refl) (λ p m. m)

  -- The graph that `split` makes lists each sub-task once and after its parents, where the shortened
  -- hashes of its steps, or of its parts, are different.
  pub split_task-InOrder :
      DistinctBelow (step_id h show default_tokens_per_step spec) (length spec.steps)
      → DistinctBelow (part_id h show default_tokens_per_step spec) parts_count
      → InOrder [] (split_task h show default_tokens_per_step spec).tasks
  unfolding split_task
  split_task-InOrder ids part_ids = tasks-InOrder spec.steps ids part_ids
