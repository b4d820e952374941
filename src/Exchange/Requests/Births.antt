-- ===== src/Exchange/Requests/Births.antt =====
-- How the exchanges of an engine come about and go on, and what `propose` adds.
use mathlib.Core.Path.{subst}
use mathlib.Core.Option.{some-injective}
use novapanda.Base.{
  ℕ, ◌+◌, ◌≤◌, String, ◌≡◌, ◌⊎◌, inl, inr, Bool-cases, none, some, arith, ◌==◌, eq_iff,
}
use novapanda.Base.Dict.{get, put, get-put}
use novapanda.Base.Exec.{ok, Result-cases, ◌>>=◌}
use novapanda.Exchange.Fields.{Exchange}
use novapanda.Exchange.Store.{exchanges-save, idem-save}
use novapanda.Exchange.Engine.{Env, Engine, deadline, set_deadline, save_exchange}
use novapanda.Exchange.Engine.Sound.{Grounds, Sound, Grew, Grew-refl, Grew-trans}
use novapanda.Exchange.Terms.{terms_hash_from_exchange}
use novapanda.Exchange.Methods.{propose_new, fix_terms, register}
use novapanda.Exchange.Requests.Engines.{IsKeyed, Grown, Grown-refl}
use novapanda.StateMachine.{proposed}
use novapanda.StateMachine.Lifecycle.{Life, Life-trans}

-- An exchange that was proposed and has come to its state by legal transitions, and is sound.
pub record Born (host : Grounds) (x : Exchange) : Type 0 where
  pub transitions : ℕ
  pub life : Life proposed x.state transitions
  pub version : transitions ≤ x.version
  pub sound : Sound host x

pub Born-Grew : {host : Grounds} {x y : Exchange} → Born host x → Grew host x y → Born host y
Born-Grew b g = record {
  transitions = b.transitions + g.transitions;
  life = Life-trans b.life g.life;
  version = omega (arith, b.version, g.version);
  sound = g.sound b.sound;
}

-- `propose` on a key that is new: it raises and leaves no exchange, or it adds the one exchange.
unfoldable pub proposed_exchange :
    {S : Type 0} (env : Env S) (now : ℕ) → Exchange → String → Exchange
proposed_exchange env now ex terms =
    deadline env now (get ex.timeouts "contract") (record ex { terms_hash = some terms })

pub propose_new-adds :
    {S : Type 0} (env : Env S) (now : ℕ) (ex : Exchange) (key : String) (s : Engine S)
    → ((propose_new env now ex key s).1.store.exchanges ≡ s.store.exchanges)
      ⊎ ((terms : String) × (terms_hash_from_exchange env.host ex ≡ ok terms)
          × ((propose_new env now ex key s).1.store.exchanges
              ≡ put s.store.exchanges
                  (proposed_exchange env now ex terms).exchange_id
                  (proposed_exchange env now ex terms)))
unfolding propose_new fix_terms set_deadline register save_exchange ◌>>=◌ proposed_exchange
propose_new-adds env now ex key s = elim (Result-cases (terms_hash_from_exchange env.host ex)) [
  | inl (terms, e) ↦ inr (terms, e, rw e (exchanges-save _ _))
  | inr (x, e) ↦ inl (rw e)
]

-- `propose` on a key that is new changes what no other key leads to.
pub propose_new-remembers :
    {S : Type 0} (env : Env S) (now : ℕ) (ex : Exchange) (key : String) (s : Engine S)
    → get s.store.idem key ≡ none
    → (other k : String) → get s.store.idem other ≡ some k
    → get (propose_new env now ex key s).1.store.idem other ≡ some k
unfolding propose_new fix_terms set_deadline register save_exchange ◌>>=◌
propose_new-remembers env now ex key s new other k e =
    elim (Result-cases (terms_hash_from_exchange env.host ex)) [
      | inr (x, f) ↦ rw f e
      | inl (terms, f) ↦ rw f (elim (Bool-cases (key == other)) [
        | inl same ↦ absurd (cc (new, e, (eq_iff key other).0 same))
        | inr apart ↦ rw (get-put, apart) (rw idem-save e)
      ])
    ]

-- What an idempotency key leads to stays.
abbrev pub Remembers : {S : Type 0} → Engine S → Engine S → Type 0
Remembers s t = (key k : String) → get s.store.idem key ≡ some k → get t.store.idem key ≡ some k

-- From `s` to `t` no exchange is lost, each goes on from where it was or was proposed on the way.
pub record Evolved {S : Type 0} (host : Grounds) (s t : Engine S) : Type 0 where
  pub keyed : IsKeyed t
  pub idem : Remembers s t
  pub onward :
      (j : String) (x : Exchange)
      → get s.store.exchanges j ≡ some x
      → (y : Exchange) × (get t.store.exchanges j ≡ some y) × Grew host x y
  pub origin :
      (j : String) (y : Exchange)
      → get t.store.exchanges j ≡ some y
      → ((x : Exchange) × (get s.store.exchanges j ≡ some x) × Grew host x y) ⊎ Born host y

module _ {S : Type 0} {host : Grounds} where
  pub Grown-Evolved : {s t : Engine S} → Grown host s t → Evolved host s t
  Grown-Evolved g = record {
    keyed = g.keyed;
    idem = λ key k e. rw g.idem e;
    onward = g.onward;
    origin = λ j y e. inl (g.origin j y e);
  }

  pub Evolved-refl : (s : Engine S) → IsKeyed s → Evolved host s s
  Evolved-refl s h = Grown-Evolved (Grown-refl s h)

  pub Evolved-trans : {s t u : Engine S} → Evolved host s t → Evolved host t u → Evolved host s u
  Evolved-trans {s} {t} {u} g h = record {
    keyed = h.keyed;
    idem = λ key k e. h.idem key k (g.idem key k e);
    onward = λ j x e.
        let (y, f, p) = g.onward j x e in
        let (z, f', q) = h.onward j y f in (z, f', Grew-trans p q);
    origin = λ j z e. elim (h.origin j z e) [
      | inr b ↦ inr b
      | inl (y, f, q) ↦ elim (g.origin j y f) [
        | inr b ↦ inr (Born-Grew b q)
        | inl (x, f', p) ↦ inl (x, f', Grew-trans p q)
      ]
    ];
  }

  -- One exchange that is new, stored under its own id, and nothing else.
  pub added :
      (s t : Engine S) (x : Exchange)
      → IsKeyed s
      → Born host x
      → get s.store.exchanges x.exchange_id ≡ none
      → t.store.exchanges ≡ put s.store.exchanges x.exchange_id x
      → Remembers s t
      → Evolved host s t
  added s t x keyed b fresh is idem = record {
    idem = idem;
    keyed = λ j y e. elim (Bool-cases (x.exchange_id == j)) [
      | inl q ↦
          let p : x.exchange_id ≡ j = (eq_iff x.exchange_id j).0 q in
          let same : x ≡ y = some-injective x y (rw (is, get-put, q) at e) in
          subst (λ z. z.exchange_id ≡ j) same p
      | inr q ↦ keyed j y (rw (is, get-put, q) at e)
    ];
    onward = λ j y e. elim (Bool-cases (x.exchange_id == j)) [
      | inl q ↦
          let p : x.exchange_id ≡ j = (eq_iff x.exchange_id j).0 q in absurd (cc (p, fresh, e))
      | inr q ↦ (y, rw (is, get-put, q) e, Grew-refl y)
    ];
    origin = λ j y e. elim (Bool-cases (x.exchange_id == j)) [
      | inl q ↦
          let same : x ≡ y = some-injective x y (rw (is, get-put, q) at e) in
          inr (subst (λ z. Born host z) same b)
      | inr q ↦ inl (y, rw (is, get-put, q) at e, Grew-refl y)
    ];
  }

  pub same_exchanges :
      (s t : Engine S)
      → t.store.exchanges ≡ s.store.exchanges
      → IsKeyed s
      → Remembers s t
      → Evolved host s t
  same_exchanges s t is keyed idem = record {
    idem = idem;
    keyed = λ j y e. keyed j y (rw is at e);
    onward = λ j x e. (x, rw is e, Grew-refl x);
    origin = λ j y e. inl (y, rw is at e, Grew-refl y);
  }
