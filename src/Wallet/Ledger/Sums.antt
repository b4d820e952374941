-- ===== src/Wallet/Ledger/Sums.antt =====
-- What all balances of an asset sum up to.
use novapanda.Base.{
  ℕ, ◌+◌, String, false, ◌&&◌, List, [], ◌∷◌, ◌==◌, ◌≡◌, inl, inr, refl, if◌then◌else◌, arith,
  eq_iff, eq_refl, Bool-cases,
}
use novapanda.Base.Int.{ℤ, pos, pos_part, neg_part, ◌+ℤ◌, ◌≤ℤ◌, ltb_ℤ, +ℤ_parts}
use novapanda.Wallet.Ledger.{Entry, amount_at, set_amount, minus, move_amount}

-- What the entries of the asset sum up to, in two parts.
unfoldable pub plus_sum : List Entry → String → ℕ
plus_sum [] q = 0
plus_sum (e ∷ es) q = (if e.asset == q then pos_part e.amount else 0) + plus_sum es q

unfoldable pub minus_sum : List Entry → String → ℕ
minus_sum [] q = 0
minus_sum (e ∷ es) q = (if e.asset == q then neg_part e.amount else 0) + minus_sum es q

pub amount_at-set_amount :
    (es : List Entry) (address asset a q : String) (v : ℤ)
    → amount_at (set_amount es address asset v) a q
      ≡ (if address == a && asset == q then v else amount_at es a q)
unfolding amount_at set_amount
amount_at-set_amount [] address asset a q v = refl
amount_at-set_amount (e ∷ es) address asset a q v = ground (
  arith,
  amount_at-set_amount es address asset a q v,
  eq_iff e.address address,
  eq_iff e.asset asset,
  eq_iff e.address a,
  eq_iff e.asset q,
  eq_iff address a,
  eq_iff asset q,
)

sums-set_amount :
    (es : List Entry) (address asset : String) (v : ℤ)
    → plus_sum (set_amount es address asset v) asset
        + minus_sum es asset
        + pos_part (amount_at es address asset)
        + neg_part v
      ≡ plus_sum es asset
        + minus_sum (set_amount es address asset v) asset
        + pos_part v
        + neg_part (amount_at es address asset)
unfolding plus_sum minus_sum amount_at set_amount
sums-set_amount [] address asset v = ground (arith, eq_refl asset)
sums-set_amount (e ∷ es) address asset v = ground (arith, sums-set_amount es address asset v)

other_sums :
    (es : List Entry) (address asset q : String) (v : ℤ)
    → (asset == q) ≡ false
    → (plus_sum (set_amount es address asset v) q ≡ plus_sum es q)
      × (minus_sum (set_amount es address asset v) q ≡ minus_sum es q)
unfolding plus_sum minus_sum set_amount
other_sums [] address asset q v h = ground (arith, h)
other_sums (e ∷ es) address asset q v h =
    let (l, r) = other_sums es address asset q v h in
    let same = eq_iff e.asset asset in
    (
      ground (arith, l, h, same, eq_iff e.asset q, eq_iff asset q),
      ground (arith, r, h, same, eq_iff e.asset q, eq_iff asset q),
    )

-- The two have the same sum.
abbrev pub SameSum : List Entry → List Entry → String → Type 0
SameSum es fs q = plus_sum fs q + minus_sum es q ≡ plus_sum es q + minus_sum fs q

pub minus_parts :
    (a b : ℤ)
    → pos_part (minus a b) + neg_part a + pos_part b
      ≡ neg_part (minus a b) + pos_part a + neg_part b
minus_parts a b = ground arith

pub move_amount-SameSum :
    (from to asset q : String) (v : ℤ) (es : List Entry)
    → SameSum es (move_amount from to asset v es) q
unfolding move_amount
move_amount-SameSum from to asset q v es =
    let paid = minus (amount_at es from asset) v in
    let fs = set_amount es from asset paid in
    let got = amount_at fs to asset +ℤ v in
    elim (Bool-cases (asset == q)) [
      | inr other ↦
          let (a, b) = other_sums es from asset q paid other in
          let (c, d) = other_sums fs to asset q got other in omega (arith, a, b, c, d)
      | inl same ↦ rw (← (eq_iff asset q).0 same) (
          omega (
            arith,
            sums-set_amount es from asset paid,
            sums-set_amount fs to asset got,
            minus_parts (amount_at es from asset) v,
            +ℤ_parts (amount_at fs to asset) v,
          ))
    ]

-- No balance is below zero.
pub record IsSolvent (es : List Entry) : Type 0 where
  pub solvent : (a q : String) → pos 0 ≤ℤ amount_at es a q

pub move_amount-IsSolvent :
    (from to asset : String) (v : ℤ) (es : List Entry)
    → pos 0 ≤ℤ v
    → ltb_ℤ (amount_at es from asset) v ≡ false
    → IsSolvent es
    → IsSolvent (move_amount from to asset v es)
unfolding move_amount
move_amount-IsSolvent from to asset v es nonneg enough h =
    let paid = minus (amount_at es from asset) v in
    let fs = set_amount es from asset paid in
    let first : (a q : String) → pos 0 ≤ℤ amount_at fs a q = λ a q.
      rw amount_at-set_amount
        (ground (arith, h.solvent a q, enough, minus_parts (amount_at es from asset) v)) in
    record {
      solvent = λ a q.
          rw amount_at-set_amount
            (ground (arith, first a q, first to asset, nonneg, +ℤ_parts (amount_at fs to asset) v));
    }

-- Not below zero.
abbrev pub Natural : ℤ → Type 0
Natural v = pos 0 ≤ℤ v
