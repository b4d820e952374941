-- ===== src/Autonomy/Passes.antt =====
-- What a pass over the sub-tasks in `_execute_dag` leaves, and how far it comes.
use novapanda.Base.{
  ℕ, ◌+◌, ◌≤◌, String, Bool, true, false, List, [], ◌∷◌, ◌++◌, ◌==◌, ◌≡◌, inl, inr, refl, ap, ◌∙◌,
  contains, if◌then◌else◌, arith, eq_refl, Bool-cases,
}
use novapanda.Base.Dict.{Dict, get-put}
use novapanda.Base.Seq.{Among}
use novapanda.Base.Exec.{ok, Result-cases}
use novapanda.Autonomy.Types.{TaskSpec, SubTask, Award}
use novapanda.Autonomy.Orchestrator.{Runner, Dag, blocked, exec_leg, pass}
use novapanda.Autonomy.Schedule.{
  Good, Settles, exec_leg-Settles, contains-snoc, started, unblocked, or_true, or_false,
}

-- How many sub-tasks are not done.
unfoldable pub undone : List SubTask → List String → ℕ
undone [] done = 0
undone (t ∷ ts) done = (if contains t.sub_id done then 0 else 1) + undone ts done

undone-snoc-le :
    (ts : List SubTask) (done : List String) (k : String)
    → undone ts (done ++ k ∷ []) ≤ undone ts done
unfolding undone
undone-snoc-le [] done k = omega arith
undone-snoc-le (t ∷ ts) done k =
    ground (arith, undone-snoc-le ts done k, contains-snoc t.sub_id k done)

undone-snoc-lt :
    (ts : List SubTask) (done : List String) (t : SubTask)
    → Among t ts
    → contains t.sub_id done ≡ false
    → undone ts (done ++ t.sub_id ∷ []) + 1 ≤ undone ts done
unfolding undone
undone-snoc-lt [] done t m fresh = absurd m
undone-snoc-lt (x ∷ ts) done t (inl e) fresh = ground (
  arith,
  undone-snoc-le ts done t.sub_id,
  contains-snoc x.sub_id t.sub_id done,
  ap (λ (y : SubTask). y.sub_id) e,
  eq_refl t.sub_id,
  fresh,
)
undone-snoc-lt (x ∷ ts) done t (inr m) fresh =
    ground (arith, undone-snoc-lt ts done t m fresh, contains-snoc x.sub_id t.sub_id done)

module _ {R : Type 0} (tasks : List SubTask) where
  pub Good-Settles :
      (t : SubTask) (d d' : Dag R)
      → Good tasks d
      → Among t tasks
      → contains t.sub_id d.done ≡ false
      → blocked d.legs t.depends_on ≡ ok false
      → Settles t d d'
      → Good tasks d'
  Good-Settles t d d' g m fresh free s = record {
    order =
        started t g.order m fresh
          (λ p k. let (l, f, h) = unblocked d.legs t.depends_on free p k in g.settled p l f h)
          s.noted;
    settled = λ p l e h. elim (Bool-cases (t.sub_id == p)) [
      | inl same ↦ rw (s.noted, contains-snoc, same) (or_true (contains p d.done))
      | inr other ↦
          rw (s.noted, contains-snoc, other)
            (or_false (g.settled p l (rw (s.legs, get-put, other) at e) h))
    ];
    done' = λ p k. elim (Bool-cases (t.sub_id == p)) [
      | inl same ↦ (s.leg, rw (s.legs, get-put, same) refl, s.settled)
      | inr other ↦
          let (l, e, h) =
            g.done' p (
              ground (arith, k, ap (contains p) s.noted, contains-snoc p t.sub_id d.done, other)) in
          (l, rw (s.legs, get-put, other) e, h)
    ];
  }

-- All of the list are tasks of the graph.
abbrev pub Within : List SubTask → List SubTask → Type 0
Within tasks ts = (t : SubTask) → Among t ts → Among t tasks

module _ {R : Type 0} (runner : Runner R) (spec : TaskSpec) (awards : Dict Award)
    (tasks : List SubTask) where
  -- What a pass leaves.
  pub record Passed (progressed now : Bool) (d d' : Dag R) : Type 0 where
    pub good : Good tasks d'
    pub less : undone tasks d'.done ≤ undone tasks d.done
    pub progress : now ≡ true → progressed ≡ false → undone tasks d'.done + 1 ≤ undone tasks d.done

  Passed-leg :
      {progressed now : Bool} {t : SubTask} {d d' d'' : Dag R}
      → Among t tasks
      → contains t.sub_id d.done ≡ false
      → Settles t d d'
      → Passed true now d' d''
      → Passed progressed now d d''
  Passed-leg {t = t} {d = d} m fresh s p =
      let lt = undone-snoc-lt tasks d.done t m fresh in
      record {
        good = p.good;
        less = omega (arith, lt, p.less, ap (undone tasks) s.noted);
        progress = λ a b. omega (arith, lt, p.less, ap (undone tasks) s.noted);
      }

  pub pass-Passed :
      (ts : List SubTask) (progressed now : Bool) (d : Dag R)
      → Within tasks ts
      → Good tasks d
      → (pass runner spec awards ts progressed d).0 ≡ ok now
      → Passed progressed now d (pass runner spec awards ts progressed d).1
  unfolding pass
  pass-Passed [] progressed now d within g e = record {
    good = g;
    less = omega arith;
    progress = λ a b. absurd (cc (e, a, b));
  }
  pass-Passed (t ∷ ts) progressed now d within g e = elim (Bool-cases (contains t.sub_id d.done)) [
    | inl old ↦
        rw (old, pass)
          (pass-Passed ts progressed now d (λ u m. within u (inr m)) g (rw (old, pass) at e))
    | inr new ↦ elim (Result-cases (blocked d.legs t.depends_on)) [
      | inr (x, f) ↦ absurd (cc (rw (new, f, pass) at e))
      | inl (b, f) ↦ elim (Bool-cases b) [
        | inl wait ↦
            let f' : blocked d.legs t.depends_on ≡ ok true = f ∙ ap ok wait in
            rw (new, f', pass)
              (pass-Passed ts progressed now d (λ u m. within u (inr m)) g
                (rw (new, f', pass) at e))
        | inr free ↦
            let f' : blocked d.legs t.depends_on ≡ ok false = f ∙ ap ok free in
            elim (Result-cases (exec_leg runner spec awards t d).0) [
              | inr (x, h) ↦ absurd (cc (rw (new, f', h, pass) at e))
              | inl (u, h) ↦
                  let d' = (exec_leg runner spec awards t d).1 in
                  let s = exec_leg-Settles runner spec awards t d h in
                  let g' = Good-Settles tasks t d d' g (within t (inl refl)) new f' s in
                  rw (new, f', h, pass)
                    (Passed-leg (within t (inl refl)) new s (
                      pass-Passed ts true now d' (λ w m. within w (inr m)) g'
                        (rw (new, f', h, pass) at e)))
            ]
      ]
    ]
  ]
