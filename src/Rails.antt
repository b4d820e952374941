-- ===== src/Rails.antt =====
-- novapanda/rail_registry.py: which settlement rail an exchange is paid on. `str.upper` and
-- `strip().lower()` are parameters, and the environment is a record. A rail is the members of its
-- manifest that the code reads.
pub mod Ranking
pub mod Config
pub mod Registry
pub mod Fitting
pub mod Choice
pub mod Bindings
pub mod Quotes
use novapanda.Base.{
  ℕ, ◌+◌, String, Bool, true, false, not, ◌&&◌, ◌||◌, Option, none, some, is_some, List, [], ◌∷◌,
  ◌==◌, map, contains, or_else, if◌then◌else◌,
}
use novapanda.Base.Dict.{Dict, get}
use novapanda.Base.Int.{ℤ, pos, ltb_ℤ, leb_ℤ}
use novapanda.Base.Exec.{Result, ok, err}
use novapanda.Base.Texts.{text_or, nonempty_or}
use novapanda.Rails.Ranking.{rank, sort_by}

pub record Micropay : Type 0 where
  pub min_unit : ℤ
  pub max_unit : Option ℤ

pub record Rail : Type 0 where
  pub id : String
  pub currencies : List String
  pub amount_class : List String
  pub micropay : Option Micropay

-- `ValueError` and `SettlementBindingError`
pub data RailError : Type 0 where
  negative_amount rail_mismatch : RailError

-- `micro_thresholds()`
pub record Thresholds : Type 0 where
  pub micro_max : ℤ
  pub macro_min : ℤ

abbrev pub default_thresholds : Thresholds
default_thresholds = record { micro_max = pos 1000; macro_min = pos 100000 }

abbrev pub micro_rail_priority : List String
micro_rail_priority = "x402" ∷ "ap2" ∷ "mock" ∷ "fiat" ∷ "fiat-s1-sandbox" ∷ []

abbrev pub macro_rail_priority : List String
macro_rail_priority = "fiat-s1-sandbox" ∷ "fiat" ∷ "ap2" ∷ "mock" ∷ "x402" ∷ []

unfoldable pub infer_amount_class : Thresholds → ℤ → Result RailError String
infer_amount_class t amount =
    if ltb_ℤ amount (pos 0)
    then err negative_amount
    else if leb_ℤ amount t.micro_max
    then ok "micro"
    else if leb_ℤ t.macro_min amount
    then ok "macro"
    else ok "standard"

abbrev pub below_max : Option ℤ → ℤ → Bool
below_max none amount = true
below_max (some mx) amount = not (ltb_ℤ mx amount)

unfoldable pub amount_in_micropay_range : Option Micropay → ℤ → Bool
amount_in_micropay_range none amount = true
amount_in_micropay_range (some mp) amount =
    if ltb_ℤ amount mp.min_unit then false else below_max mp.max_unit amount

-- The key by which `_rank_candidates` sorts; where there is none, all rails have the same.
unfoldable pub rank_of : String → List String → Rail → ℕ
rank_of amount_class [] r =
    if amount_class == "micro"
    then rank micro_rail_priority 5 r.id
    else if amount_class == "macro"
    then rank macro_rail_priority 5 r.id
    else 0
rank_of amount_class (p ∷ ps) r = rank (p ∷ ps) 999 r.id

-- `sorted` keeps the order of what has the same key, so a constant key keeps the list.
unfoldable pub rank_candidates : String → List String → List Rail → List Rail
rank_candidates amount_class preferred candidates =
    sort_by (rank_of amount_class preferred) candidates

-- `settlement_terms`
pub record RailTerms : Type 0 where
  pub currency : Option String
  pub amount_class : Option String
  pub preferred_rails : List String
  pub client_rails : Option (List String)
  pub provider_rails : Option (List String)
  pub fallback : Option String

abbrev pub ids : List Rail → List String
ids rails = map (λ (r : Rail). r.id) rails

-- `a or b` on optional lists
abbrev pub list_or : Option (List String) → List String → List String
list_or none d = d
list_or (some []) d = d
list_or (some (x ∷ xs)) d = x ∷ xs

abbrev pub allowed : List String → String → Bool
allowed [] s = true
allowed (x ∷ xs) s = contains s (x ∷ xs)

abbrev pub in_range : Rail → Option ℤ → Bool
in_range r none = true
in_range r (some amount) = amount_in_micropay_range r.micropay amount

-- `_ok` of `negotiate_rail`; `currency` is in upper case
unfoldable pub is_ok : (String → String) → String → String → Option ℤ → List String → Rail → Bool
is_ok upper currency amount_class amount node_ids r =
    if not (contains r.id node_ids)
    then false
    else if not (currency == "") && not (allowed (map upper r.currencies) currency)
    then false
    else if not (allowed r.amount_class amount_class)
    then false
    else in_range r amount

unfoldable pub filter_rails : (Rail → Bool) → List Rail → List Rail
filter_rails test [] = []
filter_rails test (r ∷ rs) = let rest = filter_rails test rs in if test r then r ∷ rest else rest

-- `amount_class`, inferred where the terms leave it out
unfoldable pub class_of : Thresholds → RailTerms → Option ℤ → Result RailError String
class_of t terms amount = elim terms.amount_class [
  | some c ↦ ok (nonempty_or c "standard")
  | none ↦ elim amount [ none ↦ ok "standard" | some a ↦ infer_amount_class t a ]
]

abbrev pub first_id : List Rail → Option String
first_id [] = none
first_id (r ∷ _) = some r.id

-- What is `_ok` and in the rails of both parties.
unfoldable pub eligible :
    (String → String)
    → String
    → String
    → Option ℤ
    → List String
    → List String
    → List Rail
    → List Rail
eligible upper currency amount_class amount caps_client caps_provider node_rails =
    filter_rails (λ r. contains r.id caps_client && contains r.id caps_provider)
      (filter_rails (is_ok upper currency amount_class amount (ids node_rails)) node_rails)

unfoldable pub negotiate_rail :
    (String → String)
    → Thresholds
    → RailTerms
    → List Rail
    → Option ℤ
    → Option (List String)
    → Option (List String)
    → Result RailError (Option String)
negotiate_rail upper t terms node_rails amount client_rails provider_rails =
    elim (class_of t terms amount) [
      | err e ↦ err e
      | ok c ↦ ok (
          first_id (
            rank_candidates c terms.preferred_rails (
              eligible upper (upper (text_or terms.currency "")) c amount
                (list_or client_rails (ids node_rails)) (list_or provider_rails (ids node_rails))
                node_rails)))
    ]

-- `price`; an amount that is no number counts as none
pub record RailPrice : Type 0 where
  pub amount : Option ℤ
  pub currency : Option String

pub record Binding : Type 0 where
  pub rail : String
  pub chosen_at : String
  pub currency : Option String
  pub amount_class : Option String
  pub preferred_rails : List String

-- The terms with the currency and the class of the price where they have none.
unfoldable pub completed : Thresholds → RailTerms → RailPrice → Result RailError RailTerms
completed t terms price =
    let filled = record terms {
      currency =
          if text_or terms.currency "" == "" && not (text_or price.currency "" == "")
          then price.currency
          else terms.currency;
    } in
    if text_or terms.amount_class "" == ""
    then elim price.amount [
      | some a ↦ elim (infer_amount_class t a) [
        | err e ↦ err e
        | ok c ↦ ok (record filled { amount_class = some c })
      ]
      | none ↦ ok (record filled { amount_class = some (or_else terms.amount_class "standard") })
    ]
    else ok filled

-- `client_rails or terms.pop("client_rails", None)`
abbrev pub caps_or : Option (List String) → Option (List String) → Option (List String)
caps_or none d = d
caps_or (some []) d = d
caps_or (some (x ∷ xs)) d = some (x ∷ xs)

unfoldable pub fall_back : (String → String) → RailTerms → List Rail → Result RailError String
fall_back lower terms node_rails =
    if lower (nonempty_or (text_or terms.fallback "") "reject") == "mock"
      && contains "mock" (ids node_rails)
    then ok "mock"
    else err rail_mismatch

abbrev pub chosen :
    (String → String) → RailTerms → List Rail → Option String → Result RailError String
chosen lower terms node_rails none = fall_back lower terms node_rails
chosen lower terms node_rails (some rail) = ok rail

abbrev pub bind_rail : RailTerms → Result RailError String → Result RailError Binding
bind_rail terms (err e) = err e
bind_rail terms (ok rail) = ok (record {
  rail = rail;
  chosen_at = "contract";
  currency = terms.currency;
  amount_class = terms.amount_class;
  preferred_rails = terms.preferred_rails;
})

unfoldable pub finalize_settlement_binding :
    (upper lower : String → String)
    → Thresholds
    → RailTerms
    → RailPrice
    → List Rail
    → Option (List String)
    → Option (List String)
    → Result RailError Binding
finalize_settlement_binding upper lower t terms price node_rails client_rails provider_rails =
    elim (completed t terms price) [
      | err e ↦ err e
      | ok full ↦
          elim (negotiate_rail upper t full node_rails price.amount
            (caps_or client_rails terms.client_rails)
            (caps_or provider_rails terms.provider_rails)) [
              | err e ↦ err e
              | ok found ↦ bind_rail full (chosen lower full node_rails found)
            ]
    ]
