-- ===== src/Rails/Choice.antt =====
-- Which rail `negotiate_rail` chooses.
use mathlib.Core.Path.{subst}
use novapanda.Base.{◌≤◌, String, ◌≡◌, refl, Option, none, some, List, [], ◌∷◌, arith}
use novapanda.Base.Int.{ℤ}
use novapanda.Base.Exec.{ok}
use novapanda.Base.Seq.{Among}
use novapanda.Base.Texts.{text_or}
use novapanda.Rails.Ranking.{Heads, Heads-sort_by}
use novapanda.Rails.{
  Rail, Thresholds, RailTerms, ids, list_or, first_id, eligible, class_of, negotiate_rail, rank_of,
  rank_candidates,
}
use novapanda.Rails.Fitting.{
  Fits, Among-filter_rails, filter_rails-Among, contains-ids, is_ok-Fits, Fits-is_ok,
}

-- What `negotiate_rail` should answer: a rail of the node that fits and that no other fitting rail
-- comes before, or none where no rail fits.
abbrev pub Best :
    (String → String)
    → RailTerms
    → String
    → Option ℤ
    → Option (List String)
    → Option (List String)
    → List Rail
    → Option String
    → Type 0
Best upper terms class amount client provider rails none =
    (q : Rail)
    → Among q rails
    → ¬ Fits upper (upper (text_or terms.currency "")) class amount (list_or client (ids rails))
        (list_or provider (ids rails)) q
Best upper terms class amount client provider rails (some rid) =
    (r : Rail) × Among r rails
    × (r.id ≡ rid)
    × Fits upper (upper (text_or terms.currency "")) class amount (list_or client (ids rails))
        (list_or provider (ids rails)) r
    × ((q : Rail)
        → Among q rails
        → Fits upper (upper (text_or terms.currency "")) class amount (list_or client (ids rails))
            (list_or provider (ids rails)) q
        → rank_of class terms.preferred_rails r ≤ rank_of class terms.preferred_rails q)

module _ (upper : String → String) (currency class : String) (amount : Option ℤ)
    (client provider : List String) (rails : List Rail) where
  abbrev chosen_from : List Rail
  chosen_from = eligible upper currency class amount client provider rails

  Among-eligible :
      (q : Rail)
      → Among q chosen_from
      → Among q rails × Fits upper currency class amount client provider q
  unfolding eligible
  Among-eligible q m =
      let (n, caps) = Among-filter_rails _ _ q m in
      let (k, h) = Among-filter_rails _ rails q n in
      (
        k,
        is_ok-Fits upper currency class amount client provider (ids rails) q h (ground arith)
            (ground arith),
      )

  eligible-Among :
      (q : Rail)
      → Among q rails
      → Fits upper currency class amount client provider q
      → Among q chosen_from
  unfolding eligible
  eligible-Among q m f =
      filter_rails-Among _ _ q
        (filter_rails-Among _ rails q m (
          Fits-is_ok upper currency class amount client provider (ids rails) q
            (contains-ids rails q m) f))
        (rw (f.of_client, f.of_provider) refl)

module _ (upper : String → String) (t : Thresholds) (terms : RailTerms) (rails : List Rail)
    (amount : Option ℤ) (client provider : Option (List String)) where
  abbrev fitting : String → List Rail
  fitting class =
      eligible upper (upper (text_or terms.currency "")) class amount (list_or client (ids rails))
        (list_or provider (ids rails)) rails

  Best-first_id :
      (class : String) (ys : List Rail)
      → Heads (rank_of class terms.preferred_rails) ys (fitting class)
      → Best upper terms class amount client provider rails (first_id ys)
  Best-first_id class [] h = λ q m f. h q (eligible-Among upper _ class amount _ _ rails q m f)
  Best-first_id class (r ∷ rs) (m, least) =
      let (k, f) = Among-eligible upper _ class amount _ _ rails r m in
      (r, k, refl, f, λ q n g. least q (eligible-Among upper _ class amount _ _ rails q n g))

  -- Where the class of the amount can be told, `negotiate_rail` answers with the id of a rail of the
  -- node that takes the currency and the class, has the amount in its range and is in the lists of
  -- both parties, and whose rank is least among such rails; it answers none exactly where there is
  -- no such rail.
  pub negotiate_rail-Best :
      (class : String)
      → class_of t terms amount ≡ ok class
      → (found : Option String) × (negotiate_rail upper t terms rails amount client provider
          ≡ ok found)
        × Best upper terms class amount client provider rails found
  unfolding negotiate_rail rank_candidates
  negotiate_rail-Best class c =
      let ranked = rank_candidates class terms.preferred_rails (fitting class) in
      (
        first_id ranked,
        rw (c, negotiate_rail) refl,
        Best-first_id class ranked
            (Heads-sort_by (rank_of class terms.preferred_rails) (fitting class)),
      )

  pub Best-found :
      (class : String) (found : Option String)
      → class_of t terms amount ≡ ok class
      → negotiate_rail upper t terms rails amount client provider ≡ ok found
      → Best upper terms class amount client provider rails found
  Best-found class found c e =
      let (other, f, best) = negotiate_rail-Best class c in
      let same : other ≡ found = cc (e, f) in
      subst (λ o. Best upper terms class amount client provider rails o) same best
