-- ===== src/Canonical/Order.antt =====
-- The order of texts that novapanda/canonical.py sorts the keys of a dict by, and that sorting does
-- not depend on the order of the members.
use Prim.Native.Char.{Char, code}
use text.Mathlib.TextEquality.{Char-path}
use novapanda.Base.{
  String, true, false, not, ◌≡◌, ◌≢◌, refl, List, [], ◌∷◌, arith, eqb, Bool-cases, inl, inr,
}
use novapanda.Canonical.Text.{before}
use novapanda.Canonical.Dump.{Member, insert_member}

-- `s < t` and `t < s` are not both, and one of them is unless the texts are the same.
before_asym : (s t : String) → before s t ≡ true → before t s ≡ false
unfolding before
before_asym s String.[] h = absurd (cc h)
before_asym String.[] (String.◌∷◌ d t) h = refl
before_asym (String.◌∷◌ c s) (String.◌∷◌ d t) h = ground (arith, before_asym s t, h)

cons_path : (c d : Char) (s t : String) → code c ≡ code d → s ≡ t → String.◌∷◌ c s ≡ String.◌∷◌ d t
cons_path c d s t e f = let p : c ≡ d = Char-path c d e in cc (p, f)

before_total : (s t : String) → s ≢ t → before s t ≡ false → before t s ≡ true
unfolding before
before_total String.[] String.[] ne h = absurd (ne refl)
before_total (String.◌∷◌ c s) String.[] ne h = refl
before_total String.[] (String.◌∷◌ d t) ne h = absurd (cc h)
before_total (String.◌∷◌ c s) (String.◌∷◌ d t) ne h = elim (Bool-cases (eqb (code c) (code d))) [
  | inl same ↦
      let e : code c ≡ code d = ground (arith, same) in
      ground (arith, h, e, before_total s t (λ f. ne (cons_path c d s t e f)))
  | inr differ ↦ ground (arith, h, differ)
]

-- from `x ≥ n` and `x < m` to `n < m`
before_trans : (n x m : String) → before x n ≡ false → before x m ≡ true → before n m ≡ true
unfolding before
before_trans n x String.[] g h = absurd (cc h)
before_trans String.[] x (String.◌∷◌ d m) g h = refl
before_trans (String.◌∷◌ a n) String.[] (String.◌∷◌ d m) g h = absurd (cc g)
before_trans (String.◌∷◌ a n) (String.◌∷◌ b x) (String.◌∷◌ d m) g h =
    ground (arith, g, h, before_trans n x m)

pub before_swap : (s t : String) → s ≢ t → before s t ≡ not (before t s)
before_swap s t ne = elim (Bool-cases (before s t)) [
  | inl y ↦ ground (arith, y, before_asym s t y)
  | inr n ↦ ground (arith, n, before_total s t ne n)
]

-- Members under different keys can be inserted in either order.
pub insert_member-swap :
    (m n : Member) (l : List Member)
    → m.0 ≢ n.0
    → insert_member m (insert_member n l) ≡ insert_member n (insert_member m l)
unfolding insert_member
insert_member-swap m n [] ne = ground (arith, before_swap m.0 n.0 ne)
insert_member-swap m n (x ∷ l) ne = ground (
  arith,
  before_swap m.0 n.0 ne,
  before_trans n.0 x.0 m.0,
  before_trans m.0 x.0 n.0,
  insert_member-swap m n l ne,
)
