-- ===== src/Bundle/Order.antt =====
-- What one round of `topological_order` keeps.
pub mod Total
use novapanda.Base.{
  ℕ, zero, suc, ◌+◌, ◌≤◌, ◌<◌, String, ◌≡◌, ◌≢◌, refl, Bool, true, false, not, ◌&&◌, ◌||◌, List, [],
  ◌∷◌, ◌++◌, ◌==◌, contains, or_else, if◌then◌else◌, arith, eq_iff, eq_refl, Bool-cases, inl, inr,
  ◌⊎◌,
}
use novapanda.Base.Dict.{Dict, get}
use novapanda.Base.Seq.{length}
use novapanda.Base.Exec.{Result, ok, err, Result-cases}
use novapanda.Bundle.{
  Bundle, BundleError, OrderError, invalid, cycle, unknown_key, no_fuel, Progress, parents_of,
  none_in, ready, without, start_all, rounds, topological_order, validate_bundle,
}

contains-append :
    (p : String) (xs ys : List String) → contains p (xs ++ ys) ≡ (contains p xs || contains p ys)
unfolding contains
contains-append p [] ys = refl
contains-append p (x ∷ xs) ys = ground (arith, contains-append p xs ys)

contains-without :
    (p i : String) (xs : List String)
    → contains p xs ≡ true
    → (contains p (without i xs) || i == p) ≡ true
unfolding contains without
contains-without p i [] h = absurd (ground arith)
contains-without p i (x ∷ xs) h =
    ground (arith, contains-without p i xs, eq_iff x i, eq_iff x p, eq_iff i p)

length-without-le : (i : String) (xs : List String) → length (without i xs) ≤ length xs
unfolding without
length-without-le i [] = omega arith
length-without-le i (x ∷ xs) = ground (arith, length-without-le i xs)

length-without :
    (i : String) (xs : List String) → contains i xs ≡ true → length (without i xs) + 1 ≤ length xs
unfolding contains without
length-without i [] h = absurd (ground arith)
length-without i (x ∷ xs) h =
    ground (arith, length-without i xs, length-without-le i xs, eq_iff x i)

none_in-contains :
    (remaining ps : List String) (p : String)
    → none_in remaining ps ≡ true
    → contains p ps ≡ true
    → contains p remaining ≡ false
unfolding none_in contains
none_in-contains remaining [] p h k = absurd (ground arith)
none_in-contains remaining (q ∷ ps) p h k =
    ground (arith, none_in-contains remaining ps p, eq_iff q p)

-- The parents of `i` that are no longer waiting.
abbrev pub Free : Dict (List String) → List String → String → Type 0
Free deps remaining i =
    (p : String) → contains p (parents_of deps i) ≡ true → contains p remaining ≡ false

unfoldable pub AllFree : Dict (List String) → List String → List String → Type 0
AllFree deps remaining [] = Unit
AllFree deps remaining (i ∷ is) = Free deps remaining i × AllFree deps remaining is

pub ready-Free :
    (deps : Dict (List String)) (remaining ids : List String)
    → AllFree deps remaining (ready deps remaining ids)
unfolding ready AllFree
ready-Free deps remaining [] = tt
ready-Free deps remaining (i ∷ is) =
    elim (Bool-cases (contains i remaining && none_in remaining (parents_of deps i))) [
      | inl go ↦ rw go (
        λ p k. none_in-contains remaining (parents_of deps i) p (ground arith) k,
        ready-Free deps remaining is,
      )
      | inr wait ↦ rw wait (ready-Free deps remaining is)
    ]

ok-inj : (s t : Progress) → ◌≡◌ {A = Result OrderError Progress} (ok s) (ok t) → s ≡ t
ok-inj s t e = cc e

module _ (deps : Dict (List String)) (ids : List String) where
  -- In the list each exchange of the bundle comes after the parents that it has in the bundle; `done`
  -- is what came before the list.
  unfoldable pub Preceded : List String → List String → Type 0
  Preceded done [] = Unit
  Preceded done (i ∷ is) =
      ((p : String)
        → contains p (parents_of deps i) ≡ true
        → contains p ids ≡ true
        → contains p done ≡ true)
      × Preceded (done ++ i ∷ []) is

  Preceded-append :
      (done xs : List String) (i : String)
      → Preceded done xs
      → ((p : String)
          → contains p (parents_of deps i) ≡ true
          → contains p ids ≡ true
          → (contains p done || contains p xs) ≡ true)
      → Preceded done (xs ++ i ∷ [])
  unfolding Preceded contains
  Preceded-append done [] i h free = (λ p k m. ground (arith, free p k m), tt)
  Preceded-append done (x ∷ xs) i (first, rest) free = (
    first,
    Preceded-append (done ++ x ∷ []) xs i rest
        (λ p k m. ground (arith, free p k m, contains-append p done (x ∷ []))),
  )

  -- Every exchange waits or is ordered, and the order so far is right.
  pub record Right (s : Progress) : Type 0 where
    pub kept :
        (p : String)
        → contains p ids ≡ true
        → (contains p s.remaining || contains p s.ordered) ≡ true
    pub order : Preceded [] s.ordered

  abbrev start_one : String → Progress → Progress
  start_one i s = record { ordered = s.ordered ++ i ∷ []; remaining = without i s.remaining }

  module _ (before : List String) where
    -- What no longer waited at the start of the round is ordered.
    abbrev pub Gone : Progress → Type 0
    Gone s =
        (p : String)
        → contains p ids ≡ true
        → contains p before ≡ false
        → contains p s.ordered ≡ true

    Gone-start_one : (i : String) (s : Progress) → Gone s → Gone (start_one i s)
    Gone-start_one i s g p m n = rw contains-append (ground (arith, g p m n))

    Right-start_one :
        (i : String) (s : Progress) → Free deps before i → Gone s → Right s → Right (start_one i s)
    unfolding contains
    Right-start_one i s free g r = record {
      kept = λ p m. ground (
        arith,
        r.kept p m,
        contains-append p s.ordered (i ∷ []),
        contains-without p i s.remaining,
      );
      order = Preceded-append [] s.ordered i r.order (λ p k m. ground (arith, g p m (free p k)));
    }

    pub Right-start_all :
        (is : List String) (s t : Progress)
        → AllFree deps before is
        → Gone s
        → Right s
        → start_all is s ≡ ok t
        → Right t
    unfolding start_all AllFree
    Right-start_all [] s t free g r e = rw (← ok-inj s t e) r
    Right-start_all (i ∷ is) s t (free, frees) g r e = elim (Bool-cases (contains i s.remaining)) [
      | inl here ↦
          Right-start_all is (start_one i s) t frees (Gone-start_one i s g)
            (Right-start_one i s free g r) (rw here at e)
      | inr gone ↦ absurd (cc (rw gone at e))
    ]

pub length-start_all :
    (is : List String) (s t : Progress)
    → start_all is s ≡ ok t
    → length t.remaining + length is ≤ length s.remaining
unfolding start_all
length-start_all [] s t e = rw (← ok-inj s t e) (omega arith)
length-start_all (i ∷ is) s t e = elim (Bool-cases (contains i s.remaining)) [
  | inl here ↦
      let rest =
        length-start_all is
          (record { ordered = s.ordered ++ i ∷ []; remaining = without i s.remaining }) t
          (rw here at e) in
      omega (arith, rest, length-without i s.remaining here)
  | inr gone ↦ absurd (cc (rw gone at e))
]
