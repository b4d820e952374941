-- ===== src/Rails/Fitting.antt =====
-- What makes a rail fit an exchange, and that `_ok` of `negotiate_rail` finds it out.
use mathlib.Core.Option.{some-injective}
use novapanda.Base.{
  String, ◌≡◌, ◌≢◌, refl, Bool, true, false, not, ◌&&◌, Option, none, some, List, [], ◌∷◌, map,
  contains, arith, Bool-cases, inl, inr, ◌==◌, eq_iff, ap,
}
use novapanda.Base.Int.{ℤ, ◌≤ℤ◌}
use novapanda.Base.Seq.{Among}
use novapanda.Rails.{
  Rail, Micropay, ids, allowed, in_range, below_max, is_ok, filter_rails, amount_in_micropay_range,
}

-- The list names the item, or is empty and names nothing.
abbrev pub Allows : List String → String → Type 0
Allows xs s = xs ≢ [] → contains s xs ≡ true

-- What makes a rail fit: it takes the currency and the class, the amount lies in its range, and both
-- parties have it.
pub record Fits (upper : String → String) (currency class : String) (amount : Option ℤ)
    (client provider : List String) (r : Rail) : Type 0 where
  pub currency_taken : currency ≢ "" → Allows (map upper r.currencies) currency
  pub class_taken : Allows r.amount_class class
  pub at_least : (a : ℤ) (p : Micropay) → amount ≡ some a → r.micropay ≡ some p → p.min_unit ≤ℤ a
  pub at_most :
      (a mx : ℤ) (p : Micropay)
      → amount ≡ some a
      → r.micropay ≡ some p
      → p.max_unit ≡ some mx
      → a ≤ℤ mx
  pub of_client : contains r.id client ≡ true
  pub of_provider : contains r.id provider ≡ true

abbrev fits_within : Option ℤ → Rail → Bool
fits_within none r = true
fits_within (some a) r = amount_in_micropay_range r.micropay a

module _ (test : Rail → Bool) where
  pub Among-filter_rails :
      (rs : List Rail) (q : Rail) → Among q (filter_rails test rs) → Among q rs × (test q ≡ true)
  unfolding filter_rails
  Among-filter_rails [] q m = absurd m
  Among-filter_rails (r ∷ rs) q m = elim (Bool-cases (test r)) [
    | inl yes' ↦ elim (rw yes' at m) [
      | inl e ↦ (inl e, cc (ap test e, yes'))
      | inr n ↦ let (k, h) = Among-filter_rails rs q n in (inr k, h)
    ]
    | inr no' ↦ let (k, h) = Among-filter_rails rs q (rw no' at m) in (inr k, h)
  ]

  pub filter_rails-Among :
      (rs : List Rail) (q : Rail) → Among q rs → test q ≡ true → Among q (filter_rails test rs)
  unfolding filter_rails
  filter_rails-Among [] q m h = m
  filter_rails-Among (r ∷ rs) q m h = elim (Bool-cases (test r)) [
    | inl yes' ↦ rw yes' (elim m [ inl e ↦ inl e | inr n ↦ inr (filter_rails-Among rs q n h) ])
    | inr no' ↦
        rw no'
          (elim m [ inl e ↦ absurd (cc (ap test e, no', h)) | inr n ↦ filter_rails-Among rs q n h ])
  ]

pub contains-ids : (rs : List Rail) (q : Rail) → Among q rs → contains q.id (ids rs) ≡ true
unfolding contains
contains-ids [] q m = absurd m
contains-ids (r ∷ rs) q m = elim m [
  | inl e ↦ ground (arith, (eq_iff r.id q.id).1 (ap (λ (x : Rail). x.id) e))
  | inr n ↦ ground (arith, contains-ids rs q n)
]

allowed-Allows : (xs : List String) (s : String) → allowed xs s ≡ true → Allows xs s
allowed-Allows [] s h ne = absurd (ne refl)
allowed-Allows (x ∷ xs) s h ne = h

Allows-allowed : (xs : List String) (s : String) → Allows xs s → allowed xs s ≡ true
Allows-allowed [] s h = refl
Allows-allowed (x ∷ xs) s h = h (λ e. cc e)

Allows-currency :
    (currency : String) (xs : List String)
    → (currency ≢ "" → Allows xs currency)
    → (not (currency == "") && not (allowed xs currency)) ≡ false
Allows-currency currency xs h = elim (Bool-cases (currency == "")) [
  | inl e ↦ rw e refl
  | inr ne ↦ rw (Allows-allowed xs currency (h (λ e. ground (arith, eq_iff currency ""))), ne) refl
]

abbrev Within : Option ℤ → Rail → Type 0
Within amount r =
    ((a : ℤ) (p : Micropay) → amount ≡ some a → r.micropay ≡ some p → p.min_unit ≤ℤ a)
    × ((a mx : ℤ) (p : Micropay)
        → amount ≡ some a
        → r.micropay ≡ some p
        → p.max_unit ≡ some mx
        → a ≤ℤ mx)

low :
    (o : Option Micropay) (a : ℤ) (p : Micropay)
    → amount_in_micropay_range o a ≡ true
    → o ≡ some p
    → p.min_unit ≤ℤ a
unfolding amount_in_micropay_range
low none a p h e = absurd (cc e)
low (some q) a p h e = rw (← some-injective q p e) (ground arith)

high :
    (o : Option Micropay) (a mx : ℤ) (p : Micropay)
    → amount_in_micropay_range o a ≡ true
    → o ≡ some p
    → p.max_unit ≡ some mx
    → a ≤ℤ mx
unfolding amount_in_micropay_range
high none a mx p h e g = absurd (cc e)
high (some q) a mx p h e g =
    let f : q.max_unit ≡ some mx = rw (some-injective q p e) g in ground (arith, f)

in_range-Within : (amount : Option ℤ) (r : Rail) → in_range r amount ≡ true → Within amount r
in_range-Within none r h = (λ a p e f. absurd (cc e), λ a mx p e f g. absurd (cc e))
in_range-Within (some b) r h = (
  λ a p e f. rw (← some-injective b a e) (low r.micropay b p h f),
  λ a mx p e f g. rw (← some-injective b a e) (high r.micropay b mx p h f g),
)

below : (o : Option ℤ) (a : ℤ) → ((mx : ℤ) → o ≡ some mx → a ≤ℤ mx) → below_max o a ≡ true
below none a h = refl
below (some mx) a h = ground (arith, h mx refl)

range :
    (o : Option Micropay) (a : ℤ)
    → ((p : Micropay) → o ≡ some p → p.min_unit ≤ℤ a)
    → ((mx : ℤ) (p : Micropay) → o ≡ some p → p.max_unit ≡ some mx → a ≤ℤ mx)
    → amount_in_micropay_range o a ≡ true
unfolding amount_in_micropay_range
range none a h k = refl
range (some p) a h k = ground (arith, h p refl, below p.max_unit a (λ mx. k mx p refl))

Within-in_range : (amount : Option ℤ) (r : Rail) → Within amount r → in_range r amount ≡ true
Within-in_range none r h = refl
Within-in_range (some a) r (h, k) = range r.micropay a (λ p. h a p refl) (λ mx p. k a mx p refl)

module _ (upper : String → String) (currency class : String) (amount : Option ℤ)
    (client provider : List String) where
  abbrev pub test_of : List String → Rail → Bool
  test_of ids = is_ok upper currency class amount ids

  is_ok_parts :
      (ids : List String) (r : Rail)
      → test_of ids r ≡ true
      → ((not (currency == "") && not (allowed (map upper r.currencies) currency)) ≡ false)
        × (allowed r.amount_class class ≡ true)
        × (in_range r amount ≡ true)
  unfolding is_ok
  is_ok_parts ids r h = ground arith

  pub is_ok-Fits :
      (ids : List String) (r : Rail)
      → test_of ids r ≡ true
      → contains r.id client ≡ true
      → contains r.id provider ≡ true
      → Fits upper currency class amount client provider r
  is_ok-Fits ids r h c p =
      let (one, two, three) = is_ok_parts ids r h in
      let (low, high) = in_range-Within amount r three in
      record {
        currency_taken = λ ne.
            allowed-Allows (map upper r.currencies) currency
              (ground (arith, one, eq_iff currency ""));
        class_taken = allowed-Allows r.amount_class class two;
        at_least = low;
        at_most = high;
        of_client = c;
        of_provider = p;
      }

  pub Fits-is_ok :
      (ids : List String) (r : Rail)
      → contains r.id ids ≡ true
      → Fits upper currency class amount client provider r
      → test_of ids r ≡ true
  unfolding is_ok
  Fits-is_ok ids r m f =
      rw
        (
          m,
          Allows-currency currency (map upper r.currencies) f.currency_taken,
          Allows-allowed r.amount_class class f.class_taken,
        )
        (Within-in_range amount r (f.at_least, f.at_most))
