-- ===== src/Canonical/Independent.antt =====
-- `canonical_bytes` of novapanda/canonical.py on dicts whose keys come in another order.
use novapanda.Base.{String, ◌||◌, ◌≡◌, ◌≢◌, refl, sym, ap, ◌∙◌, List, ◌∷◌, ◌==◌, arith, eq_iff}
use novapanda.Base.Exec.{Result, ok, err}
use novapanda.Canonical.Value.{Json, Items, Fields, field}
use novapanda.Canonical.Dump.{CanonError, ◌>>=◌, Member, sort_members, insert_member, canonical}
use novapanda.Canonical.Order.{insert_member-swap}
use novapanda.Canonical.Reordered.{
  SameJson, same, same_arr, same_obj, SameItems, same_nil, same_cons, SameFields, same_done,
  same_field, swapped, then_same, has_key, Distinct, DistinctItems, DistinctFields, text_of,
  texts_of, members_of,
}
use novapanda.Canonical.Written.{written}

-- What the steps of a chain gave.
bind-ok :
    {A B : Type 0} (r : Result CanonError A) (f : A → Result CanonError B) (b : B)
    → (r >>= f) ≡ ok b
    → (a : A) × (r ≡ ok a) × (f a ≡ ok b)
bind-ok (ok a) f b e = (a, refl, e)
bind-ok (err x) f b e = absurd (cc e)

sorted_alike :
    (m : Member) (ms ns all : List Member)
    → m ∷ ms ≡ all
    → sort_members ns ≡ sort_members ms
    → sort_members (m ∷ ns) ≡ sort_members all
unfolding sort_members
sorted_alike m ms ns all is e = rw (← is) (ap (insert_member m) e)

sorted_swap :
    (m n : Member) (l all : List Member)
    → m.0 ≢ n.0
    → m ∷ n ∷ l ≡ all
    → sort_members (n ∷ m ∷ l) ≡ sort_members all
unfolding sort_members
sorted_swap m n l all ne is = rw (← is) (insert_member-swap n m (sort_members l) (λ p. ne (sym p)))

one_member :
    (r : Result CanonError String) (q : Result CanonError (List Member)) (k t : String)
    (l : List Member)
    → r ≡ ok t
    → q ≡ ok l
    → (r >>= λ x. q >>= λ y. ok ((k, x) ∷ y)) ≡ ok ((k, t) ∷ l)
one_member r q k t l a b = rw (a, b) refl

module _ (nfc : String → String) where
  has_key-same :
      (q : String) {fs gs : Fields} → SameFields fs gs → has_key nfc q gs ≡ has_key nfc q fs
  unfolding has_key
  has_key-same q same_done = refl
  has_key-same q (same_field {k = k} v r) = ap (λ b. nfc k == q || b) (has_key-same q r)
  has_key-same q swapped = ground arith
  has_key-same q (then_same r s) = has_key-same q s ∙ has_key-same q r

  -- The other object is written as the same text, and its keys are different too.
  abbrev Alike : Json → String → Type 0
  Alike w s = (text_of nfc w ≡ ok s) × Distinct nfc w

  abbrev AlikeItems : Items → List String → Type 0
  AlikeItems ys ts = (texts_of nfc ys ≡ ok ts) × DistinctItems nfc ys

  abbrev AlikeFields : Fields → List Member → Type 0
  AlikeFields gs ms =
      (ns : List Member) × (members_of nfc gs ≡ ok ns)
      × (sort_members ns ≡ sort_members ms)
      × DistinctFields nfc gs

  swapped-AlikeFields :
      (j k : String) (v w : Json) (fs : Fields)
      → DistinctFields nfc (field j v (field k w fs))
      → (ms : List Member) → members_of nfc (field j v (field k w fs)) ≡ ok ms
      → AlikeFields (field k w (field j v fs)) ms
  unfolding members_of DistinctFields has_key sort_members
  swapped-AlikeFields j k v w fs (new, d, (new', d', ds)) ms e =
      let (t, a, e1) = bind-ok (text_of nfc v) _ ms e in
      let (ns, b, e2) = bind-ok _ (λ (x : List Member). ok ((nfc j, t) ∷ x)) ms e1 in
      let (u, a', e3) = bind-ok (text_of nfc w) _ ns b in
      let (l, b', e4) =
        bind-ok (members_of nfc fs) (λ (x : List Member). ok ((nfc k, u) ∷ x)) ns e3 in
      let apart : nfc j ≢ nfc k = λ p. ground (arith, new, eq_iff (nfc k) (nfc j), p) in
      let is : (nfc j, t) ∷ (nfc k, u) ∷ l ≡ ms = cc (e2, e4) in
      (
        (nfc k, u) ∷ (nfc j, t) ∷ l,
        one_member (text_of nfc w) (members_of nfc (field j v fs)) (nfc k) u ((nfc j, t) ∷ l) a'
            (one_member (text_of nfc v) (members_of nfc fs) (nfc j) t l a b'),
        sorted_swap (nfc j, t) (nfc k, u) l ms apart is,
        (
          ground (arith, new, new', eq_iff (nfc k) (nfc j), eq_iff (nfc j) (nfc k)),
          d',
          (ground (arith, new), d, ds),
        ),
      )

  mutual
    unfolding text_of Distinct

    same-Alike :
        {v w : Json}
        → SameJson v w
        → Distinct nfc v
        → (s : String) → text_of nfc v ≡ ok s
        → Alike w s
    same-Alike same d s e = (e, d)
    same-Alike (same_arr {xs} {ys} r) d s e =
        let (ts, a, e1) = bind-ok (texts_of nfc xs) _ s e in
        let (b, d') = same-AlikeItems r d ts a in (rw b e1, d')
    same-Alike (same_obj {fs} {gs} r) d s e =
        let (ms, a, e1) = bind-ok (members_of nfc fs) _ s e in
        let (ns, b, alike, d') = same-AlikeFields r d ms a in (rw b (rw alike e1), d')

    same-AlikeItems :
        {xs ys : Items}
        → SameItems xs ys
        → DistinctItems nfc xs
        → (ts : List String) → texts_of nfc xs ≡ ok ts
        → AlikeItems ys ts
    same-AlikeItems same_nil d ts e = (e, d)
    same-AlikeItems (same_cons {v} {w} {xs} {ys} r rs) (d, ds) ts e =
        let (t, a, e1) = bind-ok (text_of nfc v) _ ts e in
        let (us, b, e2) = bind-ok (texts_of nfc xs) (λ (x : List String). ok (t ∷ x)) ts e1 in
        let (a', d') = same-Alike r d t a in
        let (b', ds') = same-AlikeItems rs ds us b in (rw (a', b') e2, (d', ds'))

    same-AlikeFields :
        {fs gs : Fields}
        → SameFields fs gs
        → DistinctFields nfc fs
        → (ms : List Member) → members_of nfc fs ≡ ok ms
        → AlikeFields gs ms
    same-AlikeFields same_done d ms e = (ms, e, refl, d)
    same-AlikeFields (same_field {k} {v} {w} {fs} {gs} r rs) (new, d, ds) ms e =
        let (t, a, e1) = bind-ok (text_of nfc v) _ ms e in
        let (ns, b, e2) =
          bind-ok (members_of nfc fs) (λ (x : List Member). ok ((nfc k, t) ∷ x)) ms e1 in
        let (a', d') = same-Alike r d t a in
        let (ns', b', alike, ds') = same-AlikeFields rs ds ns b in
        let is : (nfc k, t) ∷ ns ≡ ms = cc e2 in
        (
          (nfc k, t) ∷ ns',
          one_member (text_of nfc w) (members_of nfc gs) (nfc k) t ns' a' b',
          sorted_alike (nfc k, t) ns ns' ms is alike,
          (has_key-same (nfc k) rs ∙ new, d', ds'),
        )
    same-AlikeFields (swapped {j} {k} {v} {w} {fs}) d ms e = swapped-AlikeFields j k v w fs d ms e
    same-AlikeFields (then_same r s) d ms e =
        let (ns, b, alike, d') = same-AlikeFields r d ms e in
        let (ls, b', alike', d'') = same-AlikeFields s d' ns b in (ls, b', alike' ∙ alike, d'')

  -- Where canonical_bytes gives bytes for an object in whose dicts different keys stay different when
  -- they are normalised, it gives the same bytes for the object with its dicts, on any level, in another
  -- order.
  pub canonical-SameJson :
      (v w : Json) (s : String)
      → SameJson v w
      → Distinct nfc v
      → canonical nfc v ≡ ok s
      → canonical nfc w ≡ ok s
  unfolding canonical
  canonical-SameJson v w s r d e =
      let (a, d') = same-Alike r d s (sym (written nfc v d) ∙ e) in written nfc w d' ∙ a
