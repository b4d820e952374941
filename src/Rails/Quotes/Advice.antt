-- ===== src/Rails/Quotes/Advice.antt =====
-- The rail that a quote recommends, beside the rails that it calls eligible.
use mathlib.Core.Option.{some-injective}
use mathlib.Core.Path.{subst}
use novapanda.Base.{
  String, ◌≡◌, refl, true, false, Option, none, some, List, map, ap, ◌∙◌, Bool-cases, inl, inr,
}
use novapanda.Base.Int.{ℤ, pos, ltb_ℤ}
use novapanda.Base.Seq.{Among}
use novapanda.Base.Texts.{nonempty_or}
use novapanda.Base.Exec.{ok, Result-cases}
use novapanda.Rails.{Rail, Thresholds, class_of, infer_amount_class}
use novapanda.Rails.Choice.{Best, negotiate_rail-Best}
use novapanda.Rails.Quotes.{
  Quote, QuoteReport, quote_terms, report_of, report_on, quote_rail, quote_settlement,
}
use novapanda.Rails.Quotes.Eligible.{Among-map, map-Among, quoted, fitting_is_quoted, quoted_fits}

module _ (upper : String → String) (t : Thresholds) (rails : List Rail) (amount : ℤ)
    (client provider : Option (List String)) (currency : String) (preferred : List String) where
  abbrev pub Agrees : Option String → List Quote → Type 0
  Agrees recommended quotes =
      ((rid : String)
        → recommended ≡ some rid
        → (q : Quote) × Among q quotes × (q.rail ≡ rid) × (q.eligible ≡ true))
      × (recommended ≡ none → (q : Quote) → Among q quotes → q.eligible ≡ false)

  abbrev rows : String → List Quote
  rows class = map (quoted upper t rails amount client provider (upper currency) class) rails

  Agrees-found :
      (class : String) (found : Option String)
      → Best upper
          (quote_terms upper t rails amount client provider (upper currency) class preferred)
          (nonempty_or class "standard")
          (some amount)
          client
          provider
          rails
          found
      → Agrees found (rows class)
  unfolding quote_rail
  Agrees-found class none none_fits = (
    λ rid e. absurd (cc e),
    λ e q m. elim (Bool-cases q.eligible) [
      | inr no' ↦ no'
      | inl yes' ↦
          let (r, n, is) = map-Among _ rails q m in
          let (p, k, f) =
            quoted_fits upper t rails amount client provider (upper currency) class r
              (ap (λ (x : Quote). x.eligible) is ∙ yes') in
          absurd (none_fits p k f)
    ],
  )
  Agrees-found class (some s) (r, m, e, f, least) = (
    λ rid g. (
      quoted upper t rails amount client provider (upper currency) class r,
      Among-map _ rails r m,
      e ∙ some-injective s rid g,
      fitting_is_quoted upper t rails amount client provider (upper currency) class r m f,
    ),
    λ g. absurd (cc g),
  )

  Agrees-report :
      (class : String) (found : Option String) (report : QuoteReport)
      → Best upper
          (quote_terms upper t rails amount client provider (upper currency) class preferred)
          (nonempty_or class "standard")
          (some amount)
          client
          provider
          rails
          found
      → report_on upper t rails amount client provider (upper currency) class (ok found) ≡ ok report
      → Agrees report.recommended_rail report.quotes
  Agrees-report class found report best e =
      let p : report_of upper t rails amount client provider (upper currency) class found ≡ report =
        cc e in
      subst (λ (x : QuoteReport). Agrees x.recommended_rail x.quotes) p
        (Agrees-found class found best)

  -- In a report of `quote_settlement`: where a rail is recommended, a quote of that rail is eligible,
  -- and where none is recommended, no quote is eligible.
  pub quote_settlement-Agrees :
      (report : QuoteReport)
      → quote_settlement upper t rails amount client provider currency preferred ≡ ok report
      → Agrees report.recommended_rail report.quotes
  unfolding quote_settlement class_of
  quote_settlement-Agrees report e = elim (Bool-cases (ltb_ℤ amount (pos 0))) [
    | inl less ↦ absurd (cc (rw (less, quote_settlement) at e))
    | inr more ↦ elim (Result-cases (infer_amount_class t amount)) [
      | inr (x, f) ↦ absurd (cc (rw (more, f, quote_settlement) at e))
      | inl (class, f) ↦
          let (found, g, best) =
            negotiate_rail-Best upper t
              (quote_terms upper t rails amount client provider (upper currency) class preferred)
              rails (some amount) client provider (nonempty_or class "standard") refl in
          Agrees-report class found report best (rw (more, f, g, quote_settlement) at e)
    ]
  ]
