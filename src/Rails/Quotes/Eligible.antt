-- ===== src/Rails/Quotes/Eligible.antt =====
-- The rails that a quote calls eligible, beside those that fit the negotiation.
use novapanda.Base.{
  String, ◌≡◌, refl, true, ◌==◌, Option, none, some, List, [], ◌∷◌, map, contains, arith, eq_iff,
  eq_refl, ap, sym, ◌∙◌, ◌≤◌, inl, inr,
}
use novapanda.Base.Int.{ℤ}
use novapanda.Base.Seq.{Among}
use novapanda.Base.Texts.{nonempty_or}
use novapanda.Rails.{Rail, Thresholds, ids, list_or, class_of, rank_of}
use novapanda.Rails.Ranking.{rank, rank_from}
use novapanda.Rails.Fitting.{Fits, contains-ids}
use novapanda.Rails.Choice.{Best, negotiate_rail-Best}
use novapanda.Rails.Quotes.{Quote, is_rail, names, quote_terms, quote_rail}

pub Among-map :
    {A B : Type 0} (f : A → B) (xs : List A) (a : A) → Among a xs → Among (f a) (map f xs)
Among-map f [] a m = m
Among-map f (x ∷ xs) a (inl e) = inl (ap f e)
Among-map f (x ∷ xs) a (inr m) = inr (Among-map f xs a m)

pub map-Among :
    {A B : Type 0} (f : A → B) (xs : List A) (b : B)
    → Among b (map f xs)
    → (a : A) × Among a xs × (f a ≡ b)
map-Among f [] b m = absurd m
map-Among f (x ∷ xs) b (inl e) = (x, inl refl, e)
map-Among f (x ∷ xs) b (inr m) = let (a, n, e) = map-Among f xs b m in (a, inr n, e)

one_has : (s : String) → contains s (s ∷ []) ≡ true
unfolding contains
one_has s = rw eq_refl refl

caps_one :
    (caps : Option (List String)) (s : String) (all : List String)
    → contains s (list_or caps all) ≡ true
    → contains s (list_or caps (s ∷ [])) ≡ true
caps_one none s all h = one_has s
caps_one (some []) s all h = one_has s
caps_one (some (x ∷ xs)) s all h = h

caps_all :
    (caps : Option (List String)) (s : String) (all : List String)
    → contains s all ≡ true
    → contains s (list_or caps (s ∷ [])) ≡ true
    → contains s (list_or caps all) ≡ true
caps_all none s all h k = h
caps_all (some []) s all h k = h
caps_all (some (x ∷ xs)) s all h k = k

list_or-caps :
    (caps : Option (List String)) (s : String) (all : List String)
    → list_or (some (list_or caps (s ∷ []))) all ≡ list_or caps (s ∷ [])
list_or-caps none s all = refl
list_or-caps (some []) s all = refl
list_or-caps (some (x ∷ xs)) s all = refl

Fits-caps :
    {upper : String → String} {currency class : String} {amount : Option ℤ}
    {client provider client' provider' : List String} {r : Rail}
    → Fits upper currency class amount client provider r
    → contains r.id client' ≡ true
    → contains r.id provider' ≡ true
    → Fits upper currency class amount client' provider' r
Fits-caps f c p = record {
  currency_taken = f.currency_taken;
  class_taken = f.class_taken;
  at_least = f.at_least;
  at_most = f.at_most;
  of_client = c;
  of_provider = p;
}

same_rank :
    (class : String) (r q : Rail)
    → rank_of class (r.id ∷ []) q ≤ rank_of class (r.id ∷ []) r
    → (q.id == r.id) ≡ true
unfolding rank_of rank rank_from
same_rank class r q h = ground (arith, eq_refl r.id, eq_iff r.id q.id, eq_iff q.id r.id)

module _ (upper : String → String) (t : Thresholds) (rails : List Rail) (amount : ℤ)
    (client provider : Option (List String)) (cur class : String) where
  abbrev FitsOne : List String → List String → Rail → Type 0
  FitsOne c p r =
      Fits upper (upper (nonempty_or cur "")) (nonempty_or class "standard") (some amount) c p r

  abbrev pub quoted : Rail → Quote
  quoted r = quote_rail upper t rails amount client provider cur class r

  abbrev BestOne : Rail → Option String → Type 0
  BestOne r found =
      Best upper (quote_terms upper t rails amount client provider cur class (r.id ∷ []))
        (nonempty_or class "standard") (some amount) (some (list_or client (r.id ∷ [])))
        (some (list_or provider (r.id ∷ []))) rails found

  abbrev narrow_caps : Option (List String) → Rail → List String
  narrow_caps caps r = list_or (some (list_or caps (r.id ∷ []))) (ids rails)

  narrow :
      (r : Rail)
      → FitsOne (list_or client (ids rails)) (list_or provider (ids rails)) r
      → FitsOne (narrow_caps client r) (narrow_caps provider r) r
  narrow r f =
      Fits-caps f (rw list_or-caps (caps_one client r.id (ids rails) f.of_client))
        (rw list_or-caps (caps_one provider r.id (ids rails) f.of_provider))

  widen :
      (r q : Rail)
      → Among q rails
      → q.id ≡ r.id
      → FitsOne (narrow_caps client r) (narrow_caps provider r) q
      → FitsOne (list_or client (ids rails)) (list_or provider (ids rails)) q
  widen r q m e f =
      let member = contains-ids rails q m in
      Fits-caps f
        (caps_all client q.id (ids rails) member
          (rw (e, ← list_or-caps client r.id (ids rails)) (rw e at f.of_client)))
        (caps_all provider q.id (ids rails) member
          (rw (e, ← list_or-caps provider r.id (ids rails)) (rw e at f.of_provider)))

  named :
      (r : Rail) (found : Option String)
      → Among r rails
      → FitsOne (list_or client (ids rails)) (list_or provider (ids rails)) r
      → BestOne r found
      → is_rail r.id found ≡ true
  named r none m f best = absurd (best r m (narrow r f))
  named r (some s) m f (q, n, e, g, least) =
      rw (← e) (same_rank (nonempty_or class "standard") r q (least r m (narrow r f)))

  unnamed :
      (r : Rail) (found : Option String)
      → is_rail r.id found ≡ true
      → BestOne r found
      → (q : Rail) × Among q rails
        × FitsOne (list_or client (ids rails)) (list_or provider (ids rails)) q
  unnamed r none e best = absurd (cc e)
  unnamed r (some s) e (q, n, f, g, least) = (q, n, widen r q n (f ∙ (eq_iff s r.id).0 e) g)

  negotiated :
      (r : Rail)
      → (found : Option String) × BestOne r found × ((quoted r).eligible ≡ is_rail r.id found)
  unfolding quote_rail class_of
  negotiated r =
      let (found, e, best) =
        negotiate_rail-Best upper t
          (quote_terms upper t rails amount client provider cur class (r.id ∷ [])) rails
          (some amount) (some (list_or client (r.id ∷ []))) (some (list_or provider (r.id ∷ [])))
          (nonempty_or class "standard") refl in
      (found, best, ap (names r.id) e)

  -- A rail that fits the whole negotiation is quoted as eligible.
  pub fitting_is_quoted :
      (r : Rail)
      → Among r rails
      → FitsOne (list_or client (ids rails)) (list_or provider (ids rails)) r
      → (quoted r).eligible ≡ true
  fitting_is_quoted r m f = let (found, best, e) = negotiated r in e ∙ named r found m f best

  -- Where a rail is quoted as eligible, some rail fits the negotiation.
  pub quoted_fits :
      (r : Rail)
      → (quoted r).eligible ≡ true
      → (q : Rail) × Among q rails
        × FitsOne (list_or client (ids rails)) (list_or provider (ids rails)) q
  quoted_fits r h = let (found, best, e) = negotiated r in unnamed r found (sym e ∙ h) best
