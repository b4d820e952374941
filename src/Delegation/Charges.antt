-- ===== src/Delegation/Charges.antt =====
-- How a charge of `validate_action` of novapanda/delegate.py changes what is noted as spent.
use mathlib.Core.Path.{subst}
use novapanda.Base.{
  ℕ, String, Bool, true, false, ◌&&◌, Option, none, some, [], ◌==◌, ◌≡◌, inl, inr, refl, sym,
  or_else, if◌then◌else◌, eq_iff, Bool-cases, Option-cases,
}
use novapanda.Base.Dict.{Dict, get, put, get-put, get-empty}
use novapanda.Base.Int.{ℤ, pos, ◌+ℤ◌, ltb_ℤ}
use novapanda.Base.Exec.{Result}
use novapanda.Delegation.Credentials.{
  Platform, Credential, DelegationError, DelegationRegistry, Action,
}
use novapanda.Delegation.Registry.{spent_in, spend, spend_if}
use novapanda.Delegation.Quota.{plus_zero, key_at, spent_at, charge_if, charge_of}

module _ (env : Platform) where
  spent_in-or_else :
      (b : Option (Dict ℤ)) (k : String) → spent_in env (some (or_else b [])) k ≡ spent_in env b k
  spent_in-or_else none k = rw get-empty refl
  spent_in-or_else (some b) k = refl

  -- What is spent, after the bucket of a delegation was written.
  spent_at-put :
      (d : Dict (Dict ℤ)) (i id k : String) (b : Dict ℤ)
      → spent_in env (get (put d i b) id) k
        ≡ (if i == id then or_else (get b k) (pos 0) else spent_in env (get d id) k)
  spent_at-put d i id k b = elim (Bool-cases (i == id)) [
    | inl same ↦ rw (get-put, same) refl
    | inr other ↦ rw (get-put, other) refl
  ]

  spend-spent :
      (i k id key : String) (v m : ℤ) (cred : Credential) (r : DelegationRegistry)
      → spent_at env id key (spend env i k v m cred r).1
        ≡ spent_at env id key r
          +ℤ (if ltb_ℤ m (spent_at env i k r +ℤ v)
              then pos 0
              else (if i == id && k == key then v else pos 0))
  unfolding spend
  spend-spent i k id key v m cred r =
      let spent = spent_at env i k r +ℤ v in
      let bucket = or_else (get r.period_spent i) [] in
      let old = spent_in-or_else (get r.period_spent i) key in
      elim (Bool-cases (ltb_ℤ m spent)) [
        | inl over ↦ elim (Bool-cases (i == id)) [
          | inl same ↦
              rw
                (
                  over,
                  spend,
                  spent_at-put r.period_spent i id key bucket,
                  same,
                  plus_zero,
                  ← (eq_iff i id).0 same,
                )
                old
          | inr other ↦
              rw (over, spend, spent_at-put r.period_spent i id key bucket, other, plus_zero) refl
        ]
        | inr under ↦ elim (Bool-cases (i == id)) [
          | inr other ↦
              rw
                (
                  under,
                  spend,
                  spent_at-put r.period_spent i id key (put bucket k spent),
                  other,
                  plus_zero,
                )
                refl
          | inl same ↦ elim (Bool-cases (k == key)) [
            | inl too ↦
                rw
                  (
                    under,
                    spend,
                    spent_at-put r.period_spent i id key (put bucket k spent),
                    same,
                    get-put,
                    too,
                    ← (eq_iff i id).0 same,
                    ← (eq_iff k key).0 too,
                  )
                  refl
            | inr apart ↦
                rw
                  (
                    under,
                    spend,
                    spent_at-put r.period_spent i id key (put bucket k spent),
                    same,
                    get-put,
                    apart,
                    plus_zero,
                    ← (eq_iff i id).0 same,
                  )
                  old
          ]
        ]
      ]

  abbrev pub Charged :
      (id key : String)
      → ℕ
      → Action
      → DelegationRegistry
      → Result DelegationError Credential × DelegationRegistry
      → Type 0
  Charged id key now a r out =
      spent_at env id key out.1 ≡ spent_at env id key r +ℤ charge_of env id key now a out.0

  no_amount : (b : Bool) (m : Option ℤ) → charge_if env b none m ≡ pos 0
  no_amount true m = refl
  no_amount false m = refl

  no_maximum : (b : Bool) (v : Option ℤ) → charge_if env b v none ≡ pos 0
  no_maximum true none = refl
  no_maximum true (some v) = refl
  no_maximum false v = refl

  if_charged : (b : Bool) (v m : ℤ) → (if b then v else pos 0) ≡ charge_if env b (some v) (some m)
  if_charged true v m = refl
  if_charged false v m = refl

  spend-Charged :
      (id key : String) (now : ℕ) (a : Action) (v m : ℤ) (cred : Credential)
      (r : DelegationRegistry)
      → a.amount ≡ some v
      → cred.constraints.max_amount ≡ some m
      → Charged id key now a r (spend env a.delegation_id (key_at env now cred) v m cred r)
  unfolding spend
  spend-Charged id key now a v m cred r e f =
      let i = a.delegation_id in
      let k = key_at env now cred in
      elim (Bool-cases (ltb_ℤ m (spent_at env i k r +ℤ v))) [
        | inl over ↦ rw (spend-spent i k id key v m cred r, over) refl
        | inr under ↦
            rw (spend-spent i k id key v m cred r, under, if_charged (i == id && k == key) v m)
              (rw (e, f) refl)
      ]

  pub spend_if-Charged :
      (id key : String) (now : ℕ) (a : Action) (cred : Credential) (r : DelegationRegistry)
      → Charged id key now a r
          (spend_if env now a.delegation_id a.amount cred.constraints.max_amount cred r)
  unfolding spend_if
  spend_if-Charged id key now a cred r =
      let b = a.delegation_id == id && key_at env now cred == key in
      elim (Option-cases a.amount) [
        | inl e ↦ rw (e, spend_if, no_amount b cred.constraints.max_amount, plus_zero) refl
        | inr (v, e) ↦ elim (Option-cases cred.constraints.max_amount) [
          | inl f ↦ rw (e, f, spend_if, no_maximum b (some v), plus_zero) refl
          | inr (m, f) ↦
              let q : spend_if env now a.delegation_id a.amount cred.constraints.max_amount cred r
                  ≡ spend env a.delegation_id (key_at env now cred) v m cred r =
                rw (e, f, spend_if) refl in
              subst (λ out. Charged id key now a r out) (sym q)
                (spend-Charged id key now a v m cred r e f)
        ]
      ]
