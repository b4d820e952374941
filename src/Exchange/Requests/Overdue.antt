-- ===== src/Exchange/Requests/Overdue.antt =====
-- `sweep` of `ExchangeEngine`: the exchanges whose deadline has come, and the others.
use mathlib.Core.Path.{subst}
use novapanda.Base.{
  ℕ, String, Bool, ◌≡◌, refl, sym, ap, ◌∙◌, inl, inr, true, false, Option, none, some, ◌==◌,
  Bool-cases,
}
use novapanda.Base.Dict.{get}
use novapanda.Base.Exec.{Result, ok, pure, ◌>>=◌, bind-ok}
use novapanda.Exchange.Fields.{Exchange}
use novapanda.Exchange.Engine.{EngineError, Env, Engine}
use novapanda.Exchange.Engine.Sound.{Rest}
use novapanda.Exchange.Closing.{expire, refund_to}
use novapanda.Exchange.Upkeep.{is_due, sweep_found, sweep_one}
use novapanda.Exchange.Requests.{expire as expire_method, perform}
use novapanda.Exchange.Requests.Growth.{Keeps-perform}
use novapanda.Exchange.Requests.Engines.{IsKeyed, on-Grown, on-apart, on-ok}
use novapanda.Exchange.Requests.Endings.{has_expired, end-pays}
use novapanda.StateMachine.{expired_refunded}

module _ {S : Type 0} (env : Env S) (now : ℕ) where
  -- An exchange before and after: it was due and has expired, or it was not and is as it was.
  pub data Swept (x y : Exchange) : Type 0 where
    overdue : is_due env now x ≡ true → y.state ≡ expired_refunded → Swept x y
    in_time : is_due env now x ≡ false → y ≡ x → Swept x y

  abbrev SweptAt : String → Engine S → Engine S → Type 0
  SweptAt j s t =
      (x : Exchange)
      → get s.store.exchanges j ≡ some x
      → (y : Exchange) × (get t.store.exchanges j ≡ some y) × Swept x y

  abbrev pub SameAt : String → Engine S → Engine S → Type 0
  SameAt j s t = get t.store.exchanges j ≡ get s.store.exchanges j

  pub Swept-trans : {x y z : Exchange} → Swept x y → Swept y z → Swept x z
  Swept-trans (overdue d e) (overdue d' e') = overdue d e'
  Swept-trans (overdue d e) (in_time n q) = overdue d (rw q e)
  Swept-trans (in_time n q) (overdue d e) = absurd (cc (n, q, d))
  Swept-trans (in_time n q) (in_time n' q') = in_time n (q' ∙ q)

  -- What a round does at the key that it visits, what it says of it, and what it does elsewhere.
  pub record Round (k : String) (b : Bool) (s t : Engine S) : Type 0 where
    pub here : SweptAt k s t
    pub told : (x : Exchange) → get s.store.exchanges k ≡ some x → b ≡ is_due env now x
    pub apart : (j : String) → (k == j) ≡ false → SameAt j s t
    pub keyed : IsKeyed t

  expire-Round :
      (k : String) (x : Exchange) (s t : Engine S)
      → IsKeyed s
      → get s.store.exchanges k ≡ some x
      → is_due env now x ≡ true
      → expire env now k s ≡ (ok tt, t)
      → Round k true s t
  unfolding expire perform
  expire-Round k x s t keyed e due r =
      let (f, is, there) = on-ok (refund_to env now expired_refunded) k s t x tt e r in
      let (paid, ended) = end-pays env now has_expired _ f is in
      let kept = λ (a : Exchange) (rest : Rest). Keeps-perform env now expire_method in
      let same = ap (λ (q : Result EngineError Unit × Engine S). q.1) r in
      record {
        here = λ z g.
            (f.ex, there, overdue (subst (λ w. is_due env now w ≡ true) (cc (e, g)) due) ended);
        told = λ z g. sym (subst (λ w. is_due env now w ≡ true) (cc (e, g)) due);
        apart = λ j ne.
            ap (λ (u : Engine S). get u.store.exchanges j) (sym same)
            ∙ on-apart (perform env now expire_method) k kept s keyed j ne;
        keyed = subst IsKeyed same (on-Grown (perform env now expire_method) k kept s keyed).keyed;
      }

  idle-Round :
      (k : String) (s : Engine S)
      → IsKeyed s
      → ((x : Exchange) → get s.store.exchanges k ≡ some x → is_due env now x ≡ false)
      → Round k false s s
  idle-Round k s keyed n = record {
    here = λ x e. (x, e, in_time (n x e) refl);
    told = λ x e. sym (n x e);
    apart = λ j ne. refl;
    keyed = keyed;
  }

  returned :
      (k : String) (s m t : Engine S) (a b : Bool)
      → ◌≡◌ {A = Result EngineError Bool × Engine S} (ok a, m) (ok b, t)
      → Round k a s m
      → Round k b s t
  returned k s m t a b e round =
      let same : a ≡ b = cc e in
      subst (λ u. Round k b s u) (cc e) (subst (λ c. Round k c s m) same round)

  sweep_found-Round :
      (k : String) (o : Option Exchange) (s t : Engine S) (b : Bool)
      → IsKeyed s
      → get s.store.exchanges k ≡ o
      → sweep_found env now o s ≡ (ok b, t)
      → Round k b s t
  unfolding sweep_found pure
  sweep_found-Round k none s t b keyed e r =
      returned k s s t false b (cc r) (idle-Round k s keyed (λ x f. absurd (cc (e, f))))
  sweep_found-Round k (some x) s t b keyed e r = elim (Bool-cases (is_due env now x)) [
    | inr n ↦
        let idle : ◌≡◌ {A = Result EngineError Bool × Engine S} (ok false, s) (ok b, t) =
          rw n at r in
        returned k s s t false b idle
          (idle-Round k s keyed (λ y f. subst (λ w. is_due env now w ≡ false) (cc (e, f)) n))
    | inl due ↦
        let (u, m, at_x, rest) =
          bind-ok (expire env now x.exchange_id) (λ _. pure true) s (rw due at r) in
        let at_k : expire env now k s ≡ (ok tt, m) =
          subst (λ i. expire env now i s ≡ (ok tt, m)) (keyed k x e) at_x in
        returned k s m t true b rest (expire-Round k x s m keyed e due at_k)
  ]

  pub sweep_one-Round :
      (k : String) (s t : Engine S) (b : Bool)
      → IsKeyed s
      → sweep_one env now k s ≡ (ok b, t)
      → Round k b s t
  unfolding sweep_one ◌>>=◌
  sweep_one-Round k s t b keyed r = sweep_found-Round k (get s.store.exchanges k) s t b keyed refl r
