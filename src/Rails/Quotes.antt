-- ===== src/Rails/Quotes.antt =====
-- `quote_settlement` of novapanda/rail_registry.py: every rail of the node with whether it is
-- eligible, and the recommended one.
pub mod Eligible
pub mod Advice
use novapanda.Base.{
  ℕ, String, ◌≡◌, refl, Bool, true, false, not, ◌&&◌, ◌==◌, Option, none, some, List, [], ◌∷◌, map,
  contains, or_else, if◌then◌else◌, arith, eq_iff, eq_refl, ap, sym, ◌∙◌, ◌≤◌, Bool-cases, inl, inr,
}
use novapanda.Base.Int.{ℤ, pos, ltb_ℤ}
use novapanda.Base.Seq.{Among}
use novapanda.Base.Exec.{Result, ok, err, Result-cases}
use novapanda.Rails.{
  Rail, RailError, negative_amount, Thresholds, RailTerms, ids, list_or, allowed, class_of,
  infer_amount_class, amount_in_micropay_range, negotiate_rail, rank_of,
}
use novapanda.Rails.Ranking.{rank, rank_from}
use novapanda.Rails.Fitting.{Fits}
use novapanda.Rails.Choice.{Best, negotiate_rail-Best, Best-found}

-- the notes of a quote
pub data QuoteNote : Type 0 where
  stub_quote : QuoteNote
  currency_unsupported class_unsupported : String → QuoteNote
  outside_micropay caps_mismatch : QuoteNote

-- `_ineligible_reason`
unfoldable pub ineligible_reason : (String → String) → Rail → ℤ → String → String → QuoteNote
ineligible_reason upper r amount currency class =
    if not (allowed (map upper r.currencies) currency)
    then currency_unsupported currency
    else if not (allowed r.amount_class class)
    then class_unsupported class
    else if not (amount_in_micropay_range r.micropay amount)
    then outside_micropay
    else caps_mismatch

pub record Quote : Type 0 where
  pub rail : String
  pub currency : String
  pub amount : ℤ
  pub amount_class : String
  pub eligible : Bool
  pub note : QuoteNote

pub record QuoteReport : Type 0 where
  pub amount : ℤ
  pub currency : String
  pub amount_class : String
  pub quotes : List Quote
  pub recommended_rail : Option String
  pub routing : Thresholds

abbrev pub is_rail : String → Option String → Bool
is_rail rid none = false
is_rail rid (some s) = s == rid

abbrev pub names : String → Result RailError (Option String) → Bool
names rid (err e) = false
names rid (ok found) = is_rail rid found

module _ (upper : String → String) (t : Thresholds) (node_rails : List Rail) (amount : ℤ)
    (client provider : Option (List String)) where
  -- the terms of a quote
  abbrev pub quote_terms : String → String → List String → RailTerms
  quote_terms cur class preferred = record {
    currency = some cur;
    amount_class = some class;
    preferred_rails = preferred;
    client_rails = none;
    provider_rails = none;
    fallback = none;
  }

  -- One rail: it is preferred, and a party without a list has just this rail.
  unfoldable pub quote_rail : String → String → Rail → Quote
  quote_rail cur class r =
      let eligible = names r.id (
        negotiate_rail upper t (quote_terms cur class (r.id ∷ [])) node_rails (some amount)
          (some (list_or client (r.id ∷ []))) (some (list_or provider (r.id ∷ [])))) in
      record {
        rail = r.id;
        currency = cur;
        amount = amount;
        amount_class = class;
        eligible = eligible;
        note = if eligible then stub_quote else ineligible_reason upper r amount cur class;
      }

  abbrev pub report_of : String → String → Option String → QuoteReport
  report_of cur class found = record {
    amount = amount;
    currency = cur;
    amount_class = class;
    quotes = map (quote_rail cur class) node_rails;
    recommended_rail = found;
    routing = t;
  }

  abbrev pub report_on :
      String → String → Result RailError (Option String) → Result RailError QuoteReport
  report_on cur class (err e) = err e
  report_on cur class (ok found) = ok (report_of cur class found)

  unfoldable pub quote_settlement : String → List String → Result RailError QuoteReport
  quote_settlement currency preferred =
      if ltb_ℤ amount (pos 0) then err negative_amount else elim (infer_amount_class t amount) [
        | err e ↦ err e
        | ok class ↦ report_on (upper currency) class (
            negotiate_rail upper t (quote_terms (upper currency) class preferred) node_rails
              (some amount) client provider)
      ]
