-- ===== src/Composer/Ends.antt =====
-- What the rounds of `run_all` of novapanda/composer.py count, and what a leg brings.
use novapanda.Base.{
  ℕ, ◌+◌, ◌≤◌, String, Bool, true, false, not, ◌&&◌, ◌||◌, Option, none, some, List, [], ◌∷◌, ◌++◌,
  ◌==◌, ◌≡◌, ◌≢◌, inl, inr, refl, ap, if◌then◌else◌, arith, Bool-cases,
}
use novapanda.Base.Dict.{Dict, put, get-put}
use novapanda.Base.Seq.{length, Among}
use novapanda.Base.Exec.{Result, ok, err, Exec}
use novapanda.Base.Texts.{text_or}
use novapanda.Bundle.{Bundle, parents_of}
use novapanda.Composer.{
  LegResult, ClaimWallet, Reservation, is_settled_in, is_over, is_lost, all_settled_in, ready_legs,
  gave_up, closed_or, closing, ran, reserved_or, reserve_if, claim_of, run_leg,
}

-- How many legs of the order are not settled.
unfoldable pub unsettled : Dict String → List String → ℕ
unsettled states [] = 0
unsettled states (leg ∷ legs) = (if is_settled_in states leg then 0 else 1) + unsettled states legs

-- What was settled stays settled.
abbrev pub Further : Dict String → Dict String → Type 0
Further d e = (p : String) → is_settled_in d p ≡ true → is_settled_in e p ≡ true

pub settled-put :
    (d : Dict String) (leg p : String)
    → is_settled_in (put d leg "SETTLED") p ≡ (leg == p || is_settled_in d p)
settled-put d leg p = elim (Bool-cases (leg == p)) [
  | inl same ↦ rw (get-put, same) refl
  | inr other ↦ rw (get-put, other) refl
]

unsettled-le :
    (d e : Dict String) (order : List String) → Further d e → unsettled e order ≤ unsettled d order
unfolding unsettled
unsettled-le d e [] f = omega arith
unsettled-le d e (x ∷ xs) f = ground (arith, unsettled-le d e xs f, f x)

pub unsettled-lt :
    (d e : Dict String) (order : List String) (x : String)
    → Further d e
    → Among x order
    → is_settled_in d x ≡ false
    → is_settled_in e x ≡ true
    → unsettled e order + 1 ≤ unsettled d order
unfolding unsettled
unsettled-lt d e [] x f m old new = absurd m
unsettled-lt d e (y ∷ ys) x f (inl same) old new =
    ground
      (arith, unsettled-le d e ys f, ap (is_settled_in d) same, ap (is_settled_in e) same, old, new)
unsettled-lt d e (y ∷ ys) x f (inr m) old new =
    ground (arith, unsettled-lt d e ys x f m old new, f y)

pub unsettled-length : (d : Dict String) (order : List String) → unsettled d order ≤ length order
unfolding unsettled
unsettled-length d [] = omega arith
unsettled-length d (x ∷ xs) = ground (arith, unsettled-length d xs)

-- What is ready is a leg of the order that is not settled.
pub ready-open :
    (b : Bundle) (d : Dict String) (order : List String) (x : String)
    → Among x (ready_legs b d order)
    → Among x order × (is_settled_in d x ≡ false)
unfolding ready_legs
ready-open b d [] x m = absurd m
ready-open b d (y ∷ ys) x m =
    elim (Bool-cases (not (is_over d y) && all_settled_in d (parents_of b.depends_on y))) [
      | inr wait ↦ let (i, o) = ready-open b d ys x (rw (wait, ready_legs) at m) in (inr i, o)
      | inl go ↦
          elim (rw (go, ready_legs) at m) as (λ _. Among x (y ∷ ys) × (is_settled_in d x ≡ false)) [
            | inl same ↦ (inl same, rw (← same) (ground (arith, go)))
            | inr later ↦ let (i, o) = ready-open b d ys x later in (inr i, o)
          ]
    ]

pub snoc_filled : (xs : List String) (x : String) → xs ++ x ∷ [] ≢ []
snoc_filled [] x e = cc e
snoc_filled (y ∷ ys) x e = cc e

-- What runs a leg gives an exchange with each result.
abbrev pub HasExchange : LegResult → Type 0
HasExchange result = (text_or result.exchange_id "" == "") ≡ false

pub record IsNaming {W : Type 0} (run_fn : String → Exec W String LegResult) : Type 0 where
  pub names :
      (leg : String) (w : W) (result : LegResult)
      → (run_fn leg w).0 ≡ ok result
      → HasExchange result

module _ {W : Type 0} (wallet : ClaimWallet W) (run_fn : String → Exec W String LegResult)
    (naming : IsNaming run_fn) where
  -- A result that says SETTLED has an exchange.
  abbrev pub Fine : LegResult → Type 0
  Fine result = (result.state == "SETTLED") ≡ true → HasExchange result

  gave_up-Fine :
      (leg : String) (claim : Option String) (reserved : Bool) (e : String) (w : W)
      → Fine (gave_up wallet run_fn leg claim reserved e w).0
  gave_up-Fine leg none true e w s = absurd (cc s)
  gave_up-Fine leg none false e w s = absurd (cc s)
  gave_up-Fine leg (some c) true e w s = absurd (cc s)
  gave_up-Fine leg (some c) false e w s = absurd (cc s)

  closed_or-Fine :
      (leg : String) (claim : Option String) (reserved : Bool) (result : LegResult)
      (out : Result String Unit × W)
      → Fine result
      → Fine (closed_or wallet run_fn leg claim reserved result out).0
  closed_or-Fine leg claim reserved result (err e, w) f = gave_up-Fine leg claim reserved e w
  closed_or-Fine leg claim reserved result (ok _, w) f = f

  closing-Fine :
      (leg : String) (claim : Option String) (reserved : Bool) (result : LegResult) (w : W)
      → Fine result
      → Fine (closing wallet run_fn leg claim reserved result w).0
  closing-Fine leg none reserved result w f = f
  closing-Fine leg (some c) reserved result w f = elim (Bool-cases (result.state == "SETTLED")) [
    | inl e ↦ rw e (closed_or-Fine leg (some c) reserved result (wallet.capture c w) f)
    | inr e ↦ elim (Bool-cases (is_lost result.state && reserved)) [
      | inl l ↦ rw (e, l) (closed_or-Fine leg (some c) reserved result (wallet.release c w) f)
      | inr l ↦ rw (e, l) f
    ]
  ]

  ran-Fine :
      (leg : String) (claim : Option String) (reserved : Bool) (out : Result String LegResult × W)
      → ((result : LegResult) → out.0 ≡ ok result → HasExchange result)
      → Fine (ran wallet run_fn leg claim reserved out).0
  ran-Fine leg claim reserved (err e, w) f = gave_up-Fine leg claim reserved e w
  ran-Fine leg claim reserved (ok result, w) f =
      closing-Fine leg claim reserved result w (λ s. f result refl)

  reserved_or-Fine :
      (leg : String) (claim : Option String) (out : Result String Bool × W)
      → Fine (reserved_or wallet run_fn leg claim out).0
  reserved_or-Fine leg claim (err e, w) = gave_up-Fine leg claim false e w
  reserved_or-Fine leg claim (ok reserved, w) =
      ran-Fine leg claim reserved (run_fn leg w) (naming.names leg w)

  pub run_leg-Fine :
      (leg : String) (c : Option Reservation) (w : W) → Fine (run_leg wallet run_fn leg c w).0
  unfolding run_leg
  run_leg-Fine leg c w =
      reserved_or-Fine leg (claim_of wallet run_fn c) (reserve_if wallet run_fn c w)
