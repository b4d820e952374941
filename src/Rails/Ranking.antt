-- ===== src/Rails/Ranking.antt =====
-- The order of the rails: Python's stable `sorted` by a numeric key, and the keys.
use novapanda.Base.{
  ℕ, ◌+◌, ◌≤◌, refl, String, List, [], ◌∷◌, ◌==◌, leb, if◌then◌else◌, arith, Bool-cases, inl, inr,
}
use novapanda.Base.Seq.{Among}

-- `order.get(s, none_rank)` of `{s: i for i, s in enumerate(order)}`: the last place counts.
unfoldable pub rank_from : ℕ → List String → ℕ → String → ℕ
rank_from i [] d s = d
rank_from i (x ∷ xs) d s = rank_from (i + 1) xs (if x == s then i else d) s

unfoldable pub rank : List String → ℕ → String → ℕ
unfolding rank_from
rank order d s = rank_from 0 order d s

module _ {A : Type 0} (key : A → ℕ) where
  unfoldable pub insert_by : A → List A → List A
  insert_by a [] = a ∷ []
  insert_by a (x ∷ xs) =
      let rest = insert_by a xs in if leb (key a) (key x) then a ∷ x ∷ xs else x ∷ rest

  unfoldable pub sort_by : List A → List A
  unfolding insert_by
  sort_by [] = []
  sort_by (x ∷ xs) = insert_by x (sort_by xs)

  -- `a` has the least key of the list.
  abbrev pub Least : A → List A → Type 0
  Least a xs = (q : A) → Among q xs → key a ≤ key q

  -- What stands first after sorting, of a list that is not empty.
  abbrev pub First : List A → A → Type 0
  First xs a = Among a xs × Least a xs

  abbrev pub Heads : List A → List A → Type 0
  Heads [] xs = (q : A) → ¬ Among q xs
  Heads (a ∷ _) xs = First xs a

  Heads-insert_by : (x : A) (ys xs : List A) → Heads ys xs → Heads (insert_by x ys) (x ∷ xs)
  unfolding insert_by
  Heads-insert_by x [] xs h =
      (inl refl, λ q m. elim m [ inl e ↦ rw e (omega arith) | inr n ↦ absurd (h q n) ])
  Heads-insert_by x (y ∷ ys) xs (m, h) = elim (Bool-cases (leb (key x) (key y))) [
    | inl le ↦
        rw le
          (inl refl, λ q n. elim n [ inl e ↦ rw e (omega arith) | inr n' ↦ ground (arith, h q n') ])
    | inr gt ↦ rw gt (inr m, λ q n. elim n [ inl e ↦ rw (← e) (ground arith) | inr n' ↦ h q n' ])
  ]

  pub Heads-sort_by : (xs : List A) → Heads (sort_by xs) xs
  unfolding sort_by
  Heads-sort_by [] = λ q m. m
  Heads-sort_by (x ∷ xs) = Heads-insert_by x (sort_by xs) xs (Heads-sort_by xs)
