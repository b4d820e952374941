-- ===== src/Rails/Bindings.antt =====
-- Which rail `finalize_settlement_binding` locks.
use mathlib.Core.Path.{subst}
use novapanda.Base.{
  String, ◌≡◌, ◌⊎◌, inl, inr, refl, true, false, ◌&&◌, Option, none, some, List, contains,
  Bool-cases, arith, ◌==◌, eq_iff, ap, sym, ◌∙◌, or_else, Option-cases,
}
use novapanda.Base.Exec.{Result, ok, Result-cases}
use novapanda.Base.Texts.{text_or, nonempty_or}
use novapanda.Rails.{
  Rail, RailError, Thresholds, RailTerms, RailPrice, Binding, ids, caps_or, class_of,
  negotiate_rail, infer_amount_class, completed, fall_back, chosen, bind_rail,
  finalize_settlement_binding,
}
use novapanda.Rails.Choice.{Best, Best-found}

-- The answers of the negotiation that lead to the binding: a best rail, or, where no rail fits, the
-- mock rail if the terms ask for it and the node has it.
abbrev pub Justified :
    (String → String) → (Option String → Type 0) → RailTerms → List Rail → String → Type 0
Justified lower Answer full rails rail =
    Answer (some rail)
    ⊎ (Answer none
        × (rail ≡ "mock")
        × (lower (nonempty_or (text_or full.fallback "") "reject") ≡ "mock")
        × (contains "mock" (ids rails) ≡ true))

class_set : (o : Option String) → (text_or o "" == "") ≡ false → (class : String) × (o ≡ some class)
class_set none h = absurd (ground arith)
class_set (some c) h = (c, refl)

class_kept :
    {x full : RailTerms} {class : String}
    → ◌≡◌ {A = Result RailError RailTerms} (ok x) (ok full)
    → x.amount_class ≡ some class
    → full.amount_class ≡ some class
class_kept {x} {full} e h =
    let p : x ≡ full = cc e in sym (ap (λ (f : RailTerms). f.amount_class) p) ∙ h

rail_of : {x b : Binding} → ◌≡◌ {A = Result RailError Binding} (ok x) (ok b) → b.rail ≡ x.rail
rail_of {x} {b} e = let p : x ≡ b = cc e in sym (ap (λ (y : Binding). y.rail) p)

completed-class :
    (t : Thresholds) (terms full : RailTerms) (price : RailPrice)
    → completed t terms price ≡ ok full
    → (class : String) × (full.amount_class ≡ some class)
unfolding completed
completed-class t terms full price e = elim (Bool-cases (text_or terms.amount_class "" == "")) [
  | inr set ↦
      let (c, h) = class_set terms.amount_class set in (c, class_kept (rw (set, completed) at e) h)
  | inl unset ↦ elim (Option-cases price.amount) [
    | inl nothing ↦ (
      or_else terms.amount_class "standard",
      class_kept (rw (unset, nothing, completed) at e) refl,
    )
    | inr (a, f) ↦ elim (Result-cases (infer_amount_class t a)) [
      | inr (x, g) ↦ absurd (cc (rw (unset, f, g, completed) at e))
      | inl (c, g) ↦ (c, class_kept (rw (unset, f, g, completed) at e) refl)
    ]
  ]
]

module _ (upper lower : String → String) (t : Thresholds) (terms : RailTerms) (price : RailPrice)
    (rails : List Rail) (client provider : Option (List String)) where
  finalize_parts :
      (b : Binding)
      → finalize_settlement_binding upper lower t terms price rails client provider ≡ ok b
      → (full : RailTerms) × (found : Option String) × (completed t terms price ≡ ok full)
        × (negotiate_rail upper t full rails price.amount
              (caps_or client terms.client_rails)
              (caps_or provider terms.provider_rails)
            ≡ ok found)
        × (bind_rail full (chosen lower full rails found) ≡ ok b)
  unfolding finalize_settlement_binding
  finalize_parts b e = elim (Result-cases (completed t terms price)) [
    | inr (x, f) ↦ absurd (cc (rw (f, finalize_settlement_binding) at e))
    | inl (full, f) ↦
        elim (Result-cases (
          negotiate_rail upper t full rails price.amount (caps_or client terms.client_rails)
            (caps_or provider terms.provider_rails))) [
              | inr (x, g) ↦ absurd (cc (rw (f, g, finalize_settlement_binding) at e))
              | inl (found, g) ↦ (full, found, f, g, rw (f, g, finalize_settlement_binding) at e)
            ]
  ]

  Justified-chosen :
      (Answer : Option String → Type 0) (full : RailTerms) (found : Option String) (b : Binding)
      → Answer found
      → bind_rail full (chosen lower full rails found) ≡ ok b
      → Justified lower Answer full rails b.rail
  unfolding fall_back
  Justified-chosen Answer full none b h e =
      let test =
        lower (nonempty_or (text_or full.fallback "") "reject") == "mock"
        && contains "mock" (ids rails) in
      elim (Bool-cases test) [
        | inl go ↦ inr (
          h,
          rail_of (rw (go, fall_back) at e),
          (eq_iff (lower (nonempty_or (text_or full.fallback "") "reject")) "mock").0
              (ground arith),
          ground arith,
        )
        | inr no' ↦ absurd (cc (rw (no', fall_back) at e))
      ]
  Justified-chosen Answer full (some r) b h e =
      inl (subst (λ z. Answer (some z)) (sym (rail_of e)) h)

  -- When `finalize_settlement_binding` returns a binding, then the terms filled up with the currency
  -- and the class of the price name a class, and the rail of the binding is one of the node's that
  -- fits these terms, the amount and both parties' lists and has the least rank of those; or no rail
  -- of the node fits, the terms fall back to "mock", the node has a rail "mock", and that is the rail.
  pub finalize_settlement_binding-Justified :
      (b : Binding)
      → finalize_settlement_binding upper lower t terms price rails client provider ≡ ok b
      → (full : RailTerms) × (class : String) × (completed t terms price ≡ ok full)
        × (full.amount_class ≡ some class)
        × Justified lower
            (Best upper full
              (nonempty_or class "standard")
              price.amount
              (caps_or client terms.client_rails)
              (caps_or provider terms.provider_rails)
              rails)
            full
            rails
            b.rail
  unfolding class_of
  finalize_settlement_binding-Justified b e =
      let (full, found, filled, asked, last) = finalize_parts b e in
      let (class, h) = completed-class t terms full price filled in
      (
        full,
        class,
        filled,
        h,
        Justified-chosen
            (Best upper full (nonempty_or class "standard") price.amount
              (caps_or client terms.client_rails) (caps_or provider terms.provider_rails) rails)
            full found b
            (Best-found upper t full rails price.amount (caps_or client terms.client_rails)
              (caps_or provider terms.provider_rails) (nonempty_or class "standard") found
              (rw (h, class_of) refl) asked)
            last,
      )
