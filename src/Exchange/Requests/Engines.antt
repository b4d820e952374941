-- ===== src/Exchange/Requests/Engines.antt =====
-- What a call does to all exchanges of the engine.
use novapanda.Base.{
  String, ◌≡◌, refl, sym, ◌∙◌, inl, inr, false, Bool-cases, some, arith, ◌==◌, eq_iff, eq_refl,
  Option-cases, ap,
}
use mathlib.Core.Path.{subst}
use novapanda.Base.Dict.{get, put, get-put}
use novapanda.Base.Exec.{ok}
use novapanda.Exchange.Fields.{Exchange}
use novapanda.Exchange.Store.{Store, fetch, hydrate_vdc, hydrate_vdc-keeps}
use novapanda.Exchange.Engine.{Engine, Focus, On, on, back}
use novapanda.Exchange.Upkeep.{visit}
use novapanda.Exchange.Engine.Sound.{Grounds, Rest, Kept, Grew, Grew-refl, Grew-Side, Grew-trans}

-- Each exchange is stored under its own id.
abbrev pub IsKeyed : {S : Type 0} → Engine S → Type 0
IsKeyed s = (j : String) (x : Exchange) → get s.store.exchanges j ≡ some x → x.exchange_id ≡ j

-- From `s` to `t` the exchanges are the same ones, each of which has grown.
pub record Grown {S : Type 0} (host : Grounds) (s t : Engine S) : Type 0 where
  pub keyed : IsKeyed t
  pub idem : t.store.idem ≡ s.store.idem
  pub onward :
      (j : String) (x : Exchange)
      → get s.store.exchanges j ≡ some x
      → (y : Exchange) × (get t.store.exchanges j ≡ some y) × Grew host x y
  pub origin :
      (j : String) (y : Exchange)
      → get t.store.exchanges j ≡ some y
      → (x : Exchange) × (get s.store.exchanges j ≡ some x) × Grew host x y

module _ {S : Type 0} {host : Grounds} where
  pub Grown-refl : (s : Engine S) → IsKeyed s → Grown host s s
  Grown-refl s h = record {
    keyed = h;
    idem = refl;
    onward = λ j x e. (x, e, Grew-refl x);
    origin = λ j y e. (y, e, Grew-refl y);
  }

  pub Grown-trans : {s t u : Engine S} → Grown host s t → Grown host t u → Grown host s u
  Grown-trans g h = record {
    keyed = h.keyed;
    idem = h.idem ∙ g.idem;
    onward = λ j x e.
        let (y, f, p) = g.onward j x e in
        let (z, f', q) = h.onward j y f in (z, f', Grew-trans p q);
    origin = λ j z e.
        let (y, f, q) = h.origin j z e in
        let (x, f', p) = g.origin j y f in (x, f', Grew-trans p q);
  }

module _ {S : Type 0} {host : Grounds} (k : String) (s t : Engine S) (x y : Exchange) where
  module _ (keyed : IsKeyed s) (at_s : get s.store.exchanges k ≡ some x)
      (at_t : get t.store.exchanges k ≡ some y) (g : Grew host x y)
      (apart : (j : String)
        → (k == j) ≡ false
        → get t.store.exchanges j ≡ get s.store.exchanges j) where
    ids_after : IsKeyed t
    ids_after j z e = elim (Bool-cases (k == j)) [
      | inl q ↦
          let p : k ≡ j = (eq_iff k j).0 q in
          let same : y ≡ z = cc (at_t, p, e) in
          subst (λ w. w.exchange_id ≡ j) same (g.terms.id ∙ keyed k x at_s ∙ p)
      | inr q ↦ keyed j z (rw (← apart j q) e)
    ]

    onward_after :
        (j : String) (z : Exchange)
        → get s.store.exchanges j ≡ some z
        → (w : Exchange) × (get t.store.exchanges j ≡ some w) × Grew host z w
    onward_after j z e = elim (Bool-cases (k == j)) [
      | inl q ↦
          let p : k ≡ j = (eq_iff k j).0 q in
          let same : x ≡ z = cc (at_s, p, e) in
          (y, rw (← p) at_t, subst (λ w. Grew host w y) same g)
      | inr q ↦ (z, apart j q ∙ e, Grew-refl z)
    ]

    origin_after :
        (j : String) (z : Exchange)
        → get t.store.exchanges j ≡ some z
        → (w : Exchange) × (get s.store.exchanges j ≡ some w) × Grew host w z
    origin_after j z e = elim (Bool-cases (k == j)) [
      | inl q ↦
          let p : k ≡ j = (eq_iff k j).0 q in
          let same : y ≡ z = cc (at_t, p, e) in
          (x, rw (← p) at_s, subst (λ w. Grew host x w) same g)
      | inr q ↦ (z, sym (apart j q) ∙ e, Grew-refl z)
    ]

    -- What holds of the exchange at `k` and of the others makes up what holds of all.
    pub together : t.store.idem ≡ s.store.idem → Grown host s t
    together same = record {
      keyed = ids_after;
      idem = same;
      onward = onward_after;
      origin = origin_after;
    }

module _ {S A : Type 0} {host : Grounds} (m : On S A) (k : String)
    (kept : (a : Exchange) (rest : Rest) → Kept host a k rest m) where
  -- A method that grows its exchange, run on the exchange that is stored at `k`, hydrated or not.
  after_back :
      (s : Engine S) (x h : Exchange)
      → IsKeyed s
      → get s.store.exchanges k ≡ some x
      → Grew host x h
      → Grown host s (back k (m (record { ex = h; eng = s }))).1
  after_back s x h keyed e g =
      let done =
        (kept x (record { others = get s.store.exchanges; idem = s.store.idem })).at
          (record { ex = h; eng = s })
          (record { keyed = keyed k x e; apart = λ j ne. refl; idem = refl; grew = g }) in
      let (r, f) = m (record { ex = h; eng = s }) in
      together k s (back k (r, f)).1 x f.ex keyed e (rw get-put (rw eq_refl)) done.grew
        (λ j ne. rw get-put (rw ne (done.apart j ne))) done.idem

  Grew-hydrate : (s : Store) (x : Exchange) → Grew host x (hydrate_vdc s x)
  Grew-hydrate s x =
      let (v, e) = hydrate_vdc-keeps s x in rw e (Grew-Side (Grew-refl x) (ground arith))

  on_found :
      (s : Engine S) (x : Exchange)
      → IsKeyed s
      → get s.store.exchanges k ≡ some x
      → Grown host s (on k m s).1
  unfolding on fetch
  on_found s x keyed e =
      rw (e, on) (after_back s x (hydrate_vdc s.store x) keyed e (Grew-hydrate s.store x))

  -- A method that grows its exchange grows the engine, and an unknown id changes nothing.
  pub on-Grown : (s : Engine S) → IsKeyed s → Grown host s (on k m s).1
  unfolding on fetch
  on-Grown s keyed = elim (Option-cases (get s.store.exchanges k)) [
    | inl absent ↦ rw (absent, on) (Grown-refl s keyed)
    | inr (x, e) ↦ on_found s x keyed e
  ]

  pub visit-Grown : (d : A) (s : Engine S) → IsKeyed s → Grown host s (visit d k m s).1
  unfolding visit
  visit-Grown d s keyed = elim (Option-cases (get s.store.exchanges k)) [
    | inl absent ↦ rw (absent, visit) (Grown-refl s keyed)
    | inr (x, e) ↦ rw (e, visit) (after_back s x x keyed e (Grew-refl x))
  ]

  -- A method that grows its exchange leaves the others as they are.
  pub on-apart :
      (s : Engine S)
      → IsKeyed s
      → (j : String) → (k == j) ≡ false
      → get (on k m s).1.store.exchanges j ≡ get s.store.exchanges j
  unfolding on fetch
  on-apart s keyed j ne = elim (Option-cases (get s.store.exchanges k)) [
    | inl absent ↦ rw (absent, on) refl
    | inr (x, e) ↦
        let h = hydrate_vdc s.store x in
        let done =
          (kept x (record { others = get s.store.exchanges; idem = s.store.idem })).at
            (record { ex = h; eng = s })
            (record {
              keyed = keyed k x e;
              apart = λ j ne. refl;
              idem = refl;
              grew = Grew-hydrate s.store x;
            }) in
        rw (e, on) (rw get-put (rw ne (done.apart j ne)))
  ]

-- A method that returned was run on the exchange that is stored, and what it left is stored.
pub on-ok :
    {S A : Type 0} (m : On S A) (k : String) (s t : Engine S) (x : Exchange) (a : A)
    → get s.store.exchanges k ≡ some x
    → on k m s ≡ (ok a, t)
    → (f : Focus S) × (m (record { ex = hydrate_vdc s.store x; eng = s }) ≡ (ok a, f))
      × (get t.store.exchanges k ≡ some f.ex)
unfolding on fetch
on-ok m k s t x a e r =
    let f = (m (record { ex = hydrate_vdc s.store x; eng = s })).1 in
    let back_is : back k (m (record { ex = hydrate_vdc s.store x; eng = s })) ≡ (ok a, t) =
      rw (e, on) at r in
    let is : (m (record { ex = hydrate_vdc s.store x; eng = s })).0 ≡ ok a =
      ap (λ q. q.0) back_is in
    let there : get (put f.eng.store.exchanges k f.ex) k ≡ some f.ex =
      rw get-put (rw eq_refl refl) in
    (f, cc is, ap (λ q. get q.1.store.exchanges k) (sym back_is) ∙ there)
