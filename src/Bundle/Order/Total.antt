-- ===== src/Bundle/Order/Total.antt =====
-- All rounds of `topological_order`: it ends, and its order is right.
use novapanda.Base.{
  ℕ, zero, suc, ◌<◌, String, ◌≡◌, ◌≢◌, refl, true, ◌||◌, List, [], ◌∷◌, ◌++◌, contains, arith,
  Bool-cases, inl, inr, ◌⊎◌,
}
use novapanda.Base.Dict.{Dict}
use novapanda.Base.Seq.{length}
use novapanda.Base.Exec.{Result, ok, err, Result-cases}
use novapanda.Bundle.{
  Bundle, BundleError, OrderError, invalid, cycle, no_fuel, Progress, ready, without, start_all,
  rounds, topological_order, validate_bundle,
}
use novapanda.Bundle.Order.{
  AllFree, ready-Free, Preceded, Right, Gone, Right-start_all, length-start_all,
}

Errors-cases :
    (xs : List BundleError)
    → (xs ≡ []) ⊎ ((y : BundleError) × (ys : List BundleError) × (xs ≡ y ∷ ys))
Errors-cases [] = inl refl
Errors-cases (x ∷ xs) = inr (x, xs, refl)

List-cases : (xs : List String) → (xs ≡ []) ⊎ ((y : String) × (ys : List String) × (xs ≡ y ∷ ys))
List-cases [] = inl refl
List-cases (x ∷ xs) = inr (x, xs, refl)

all_ordered :
    (remaining order : List String) (p : String)
    → remaining ≡ []
    → (contains p remaining || contains p order) ≡ true
    → contains p order ≡ true
unfolding contains
all_ordered remaining order p e h = rw e at h

module _ (b : Bundle) where
  abbrev deps : Dict (List String)
  deps = b.depends_on

  abbrev ids : List String
  ids = b.exchange_ids

  Gone-Right : (s : Progress) → Right deps ids s → Gone deps ids s.remaining s
  Gone-Right s r p m n = ground (arith, r.kept p m)

  -- What `rounds` gives: a right order of all exchanges, or an error that is not for lack of fuel.
  abbrev pub Good : Result OrderError (List String) → Type 0
  Good (ok order) =
      Preceded deps ids [] order × ((p : String) → contains p ids ≡ true → contains p order ≡ true)
  Good (err e) = e ≢ no_fuel

  start_all-fuelled :
      (is : List String) (s : Progress) (e : OrderError) → start_all is s ≡ err e → e ≢ no_fuel
  unfolding start_all
  start_all-fuelled [] s e h k = cc (h, k)
  start_all-fuelled (i ∷ is) s e h k = elim (Bool-cases (contains i s.remaining)) [
    | inl here ↦
        start_all-fuelled is
          (record { ordered = s.ordered ++ i ∷ []; remaining = without i s.remaining }) e
          (rw here at h) k
    | inr gone ↦ cc (rw gone at h, k)
  ]

  module _ (n : ℕ) (s : Progress) where
    rounds-done : s.remaining ≡ [] → rounds (suc n) b s ≡ ok s.ordered
    unfolding rounds
    rounds-done e = rw e refl

    module _ (x : String) (xs : List String) (e : s.remaining ≡ x ∷ xs) where
      rounds-cycle : ready deps s.remaining ids ≡ [] → rounds (suc n) b s ≡ err cycle
      unfolding rounds
      rounds-cycle f = ground (arith, e, f)

      module _ (i : String) (is : List String) (f : ready deps s.remaining ids ≡ i ∷ is) where
        rounds-err : (y : OrderError) → start_all (i ∷ is) s ≡ err y → rounds (suc n) b s ≡ err y
        unfolding rounds
        rounds-err y g = ground (arith, e, f, g)

        rounds-ok : (t : Progress) → start_all (i ∷ is) s ≡ ok t → rounds (suc n) b s ≡ rounds n b t
        unfolding rounds
        rounds-ok t g = ground (arith, e, f, g)

  rounds-Good :
      (n : ℕ) (s : Progress) → Right deps ids s → length s.remaining < n → Good (rounds n b s)
  rounds-Good zero s r le = absurd (omega (arith, le))
  rounds-Good (suc n) s r le = elim (List-cases s.remaining) [
    | inl e ↦
        rw (rounds-done n s e) (r.order, λ p m. all_ordered s.remaining s.ordered p e (r.kept p m))
    | inr (x, xs, e) ↦ elim (List-cases (ready deps s.remaining ids)) [
      | inl f ↦ rw (rounds-cycle n s x xs e f) (λ k. cc k)
      | inr (i, is, f) ↦ elim (Result-cases (start_all (i ∷ is) s)) [
        | inr (y, g) ↦ rw (rounds-err n s x xs e i is f y g) (start_all-fuelled (i ∷ is) s y g)
        | inl (t, g) ↦
            let all_free = ready-Free deps s.remaining ids in
            let free : AllFree deps s.remaining (i ∷ is) = rw f at all_free in
            let right =
              Right-start_all deps ids s.remaining (i ∷ is) s t free (Gone-Right s r) r g in
            rw (rounds-ok n s x xs e i is f t g)
              (rounds-Good n t right (omega (arith, le, length-start_all (i ∷ is) s t g)))
      ]
    ]
  ]

  start-Right : Right deps ids (record { ordered = []; remaining = ids })
  unfolding Preceded contains
  start-Right = record { kept = λ p m. ground (arith, m); order = tt }

  abbrev at_start : Progress
  at_start = record { ordered = []; remaining = ids }

  order-of_valid :
      validate_bundle b ≡ [] → topological_order b ≡ rounds (suc (length ids)) b at_start
  unfolding topological_order
  order-of_valid e = ground (arith, e)

  order-of_invalid :
      (x : BundleError) (xs : List BundleError)
      → validate_bundle b ≡ x ∷ xs
      → topological_order b ≡ err (invalid (x ∷ xs))
  unfolding topological_order
  order-of_invalid x xs e = ground (arith, e)

  -- `topological_order` of a bundle never runs out of rounds. Where it gives an order, every exchange
  -- of the bundle is in it, and each comes after all the parents that it has in the bundle.
  pub topological_order-Good : Good (topological_order b)
  topological_order-Good = elim (Errors-cases (validate_bundle b)) [
    | inl e ↦
        rw (order-of_valid e) (rounds-Good (suc (length ids)) at_start start-Right (omega arith))
    | inr (x, xs, e) ↦ rw (order-of_invalid x xs e) (λ k. cc k)
  ]
