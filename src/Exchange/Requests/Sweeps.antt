-- ===== src/Exchange/Requests/Sweeps.antt =====
-- The loop of `sweep` of `ExchangeEngine`, and what it returns.
use mathlib.Core.Path.{subst}
use novapanda.Base.{
  ℕ, String, Bool, ◌≡◌, refl, sym, ap, ◌∙◌, inl, inr, true, false, some, List, [], ◌∷◌, ◌==◌, arith,
  if◌then◌else◌, Bool-cases, eq_iff, eq_refl, contains,
}
use novapanda.Base.Dict.{Dict, get, keys}
use novapanda.Base.Exec.{ok, pure, bind-ok}
use novapanda.Exchange.Fields.{Exchange}
use novapanda.Exchange.Engine.{Env, Engine}
use novapanda.Exchange.Upkeep.{is_due, sweep_one, sweep_each, sweep}
use novapanda.Exchange.Requests.Engines.{IsKeyed}
use novapanda.Exchange.Requests.Runs.{Run}
use novapanda.Exchange.Requests.History.{fresh_engine, Run-IsKeyed}
use novapanda.Exchange.Requests.Overdue.{
  Swept, overdue, in_time, SameAt, Swept-trans, Round, sweep_one-Round,
}

module _ {S : Type 0} (env : Env S) (now : ℕ) where
  -- After a loop: the keys that it visits are swept, and it gives those that were due; the rest is as
  -- it was.
  abbrev Listed : String → List String → Engine S → Engine S → Type 0
  Listed j out s t =
      (x : Exchange)
      → get s.store.exchanges j ≡ some x
      → (y : Exchange) × (get t.store.exchanges j ≡ some y)
        × Swept env now x y
        × (contains j out ≡ is_due env now x)

  abbrev Visits : List String → List String → String → Engine S → Engine S → Type 0
  Visits ks out j s t =
      (contains j ks ≡ true → Listed j out s t)
      × (contains j ks ≡ false → SameAt env now j s t × (contains j out ≡ false))

  abbrev listing : Bool → String → List String → List String
  listing b k rest = if b then k ∷ rest else rest

  still_in_time :
      {x y : Exchange} → Swept env now x y → is_due env now x ≡ false → is_due env now y ≡ false
  still_in_time (overdue d e) n = absurd (cc (d, n))
  still_in_time (in_time m q) n = rw q n

  listing-here :
      (j : String) (b c : Bool) (rest : List String)
      → b ≡ c
      → (c ≡ false → contains j rest ≡ false)
      → contains j (listing b j rest) ≡ c
  unfolding contains
  listing-here j true c rest e h = rw (eq_refl j) e
  listing-here j false c rest e h = h (sym e) ∙ e

  listing-apart :
      (k j : String) (b : Bool) (rest : List String)
      → (k == j) ≡ false
      → contains j (listing b k rest) ≡ contains j rest
  unfolding contains
  listing-apart k j true rest ne = rw ne refl
  listing-apart k j false rest ne = refl

  Visits-here :
      (j : String) (ks : List String) (b : Bool) (rest : List String) (s m t : Engine S)
      → Round env now j b s m
      → Visits ks rest j m t
      → Listed j (listing b j rest) s t
  Visits-here j ks b rest s m t round (in_ks, out_ks) x e =
      let (y, f, p) = round.here x e in
      elim (Bool-cases (contains j ks)) [
        | inl within ↦
            let (z, g, q, listed) = in_ks within y f in
            (
              z,
              g,
              Swept-trans env now p q,
              listing-here j b _ rest (round.told x e) (λ n. listed ∙ still_in_time p n),
            )
        | inr beyond ↦
            let (same, unlisted) = out_ks beyond in
            (y, same ∙ f, p, listing-here j b _ rest (round.told x e) (λ n. unlisted))
      ]

  Visits-apart :
      (k j : String) (ks : List String) (b : Bool) (rest : List String) (s m t : Engine S)
      → (k == j) ≡ false
      → Round env now k b s m
      → Visits ks rest j m t
      → Visits (k ∷ ks) (listing b k rest) j s t
  unfolding contains
  Visits-apart k j ks b rest s m t ne round (in_ks, out_ks) = (
    λ c x e.
        let (y, f, p, listed) = in_ks (rw ne at c) x (round.apart j ne ∙ e) in
        (y, f, p, listing-apart k j b rest ne ∙ listed),
    λ c.
        let (same, unlisted) = out_ks (rw ne at c) in
        (same ∙ round.apart j ne, listing-apart k j b rest ne ∙ unlisted),
  )

  Visits-Round :
      (k j : String) (ks : List String) (b : Bool) (rest : List String) (s m t : Engine S)
      → Round env now k b s m
      → Visits ks rest j m t
      → Visits (k ∷ ks) (listing b k rest) j s t
  unfolding contains
  Visits-Round k j ks b rest s m t round later = elim (Bool-cases (k == j)) [
    | inl q ↦
        let is : j ≡ k = sym ((eq_iff k j).0 q) in
        (
          λ c.
              subst (λ i. Listed j (listing b i rest) s t) is
                (Visits-here j ks b rest s m t (subst (λ i. Round env now i b s m) (sym is) round)
                  later),
          λ c. absurd (cc (rw q at c)),
        )
    | inr ne ↦ Visits-apart k j ks b rest s m t ne round later
  ]

  sweep_each-Visits :
      (ks : List String) (s t : Engine S) (out : List String)
      → IsKeyed s
      → sweep_each env now ks s ≡ (ok out, t)
      → (j : String) → Visits ks out j s t
  unfolding sweep_each contains pure
  sweep_each-Visits [] s t out keyed r j =
      let none_out : [] ≡ out = cc r in
      let is : s ≡ t = cc r in
      (
        λ c. absurd (cc c),
        λ c. (
          ap (λ (u : Engine S). get u.store.exchanges j) (sym is),
          ap (λ l. contains j l) (sym none_out),
        ),
      )
  sweep_each-Visits (k ∷ ks) s t out keyed r j =
      let (b, m, first, later) = bind-ok (sweep_one env now k) _ s r in
      let (rest, t', after, end) = bind-ok (sweep_each env now ks) _ m later in
      let round = sweep_one-Round env now k s m b keyed first in
      let is : t' ≡ t = cc end in
      let out_is : listing b k rest ≡ out = cc end in
      let at_t = subst (λ u. sweep_each env now ks m ≡ (ok rest, u)) is after in
      subst (λ l. Visits (k ∷ ks) l j s t) out_is
        (Visits-Round k j ks b rest s m t round (sweep_each-Visits ks m t rest round.keyed at_t j))

contains-keys :
    {V : Type 0} (d : Dict V) (k : String) (v : V) → get d k ≡ some v → contains k (keys d) ≡ true
unfolding get keys contains
contains-keys [] k v e = absurd (cc e)
contains-keys ((j, w) ∷ d) k v e = ground (arith, e, eq_iff j k, contains-keys d k v)

-- In any run of the node from its start, `uuid4` giving new ids: when sweep returns, every exchange of
-- the store that was due is EXPIRED_REFUNDED and every other is as it was, and sweep has returned
-- exactly those that were due.
pub sweep-Swept :
    {S : Type 0} (env : Env S) {rail : S} {s t : Engine S} (now : ℕ) (out : List String)
    → Run env (fresh_engine rail) s
    → sweep env now s ≡ (ok out, t)
    → (j : String) (x : Exchange) → get s.store.exchanges j ≡ some x
    → (y : Exchange) × (get t.store.exchanges j ≡ some y)
      × Swept env now x y
      × (contains j out ≡ is_due env now x)
unfolding sweep
sweep-Swept env {s = s} {t = t} now out run r j x e =
    (sweep_each-Visits env now (keys s.store.exchanges) s t out (Run-IsKeyed env run) r j).0
      (contains-keys s.store.exchanges j x e) x e
