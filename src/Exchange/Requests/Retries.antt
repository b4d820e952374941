-- ===== src/Exchange/Requests/Retries.antt =====
-- `propose` called again with the idempotency key of an earlier call.
use mathlib.Core.Path.{subst}
use novapanda.Exchange.Requests.Grounds.{grounds}
use novapanda.Base.{
  ℕ, String, ◌≡◌, inl, inr, none, some, Option-cases, arith, [], ◌∷◌, eq_iff, eq_refl, refl, sym,
  ap, ◌∙◌,
}
use novapanda.Base.Dict.{Dict, get, put, keys, get-put}
use novapanda.Base.Exec.{Result, ok, err, pure, Result-cases, ◌>>=◌}
use novapanda.Exchange.Fields.{Exchange}
use novapanda.Exchange.Store.{save, keep, idem_set, hydrate_vdc, fetch}
use novapanda.Exchange.Engine.{
  Env, Engine, on, EngineError, code_error, not_found, set_deadline, save_exchange,
}
use novapanda.Exchange.Methods.{
  idem_key, Proposal, propose, propose_new, fresh_exchange, fix_terms, register,
}
use novapanda.Exchange.Terms.{terms_hash_from_exchange}
use novapanda.Exchange.Requests.Births.{proposed_exchange, Evolved}
use novapanda.Exchange.Requests.Engines.{IsKeyed}
use novapanda.Exchange.Requests.Runs.{Run, Evolved-propose, Evolved-Run}
use novapanda.Exchange.Requests.History.{fresh_engine, Run-IsKeyed}
use novapanda.Host.Hashing.{CodeError}

keys-put :
    {V : Type 0} (d : Dict V) (k : String) (v w : V) → get d k ≡ some w → keys (put d k v) ≡ keys d
unfolding get put keys
keys-put [] k v w e = absurd (cc e)
keys-put ((j, x) ∷ d) k v w e = ground (arith, eq_iff j k, keys-put d k v w)

module _ {S : Type 0} (env : Env S) where
  -- the key leads to an exchange of the store
  Leads : String → String → Engine S → Type 0
  Leads key k s =
      (get s.store.idem key ≡ some k) × ((x : Exchange) × (get s.store.exchanges k ≡ some x))

  on_pure :
      (k : String) (x : Exchange) (s : Engine S)
      → get s.store.exchanges k ≡ some x
      → on {S = S} k (pure k) s
        ≡ (ok k, record s { store = keep k (hydrate_vdc s.store x) s.store })
  unfolding on fetch pure
  on_pure k x s h = rw (h, on) refl

  on_missing :
      (k : String) (s : Engine S)
      → get s.store.exchanges k ≡ none
      → (on {S = S} k (pure k) s).0 ≡ err not_found
  unfolding on fetch
  on_missing k s h = rw (h, on) refl

  propose_known :
      (now : ℕ) (id nonce k : String) (p : Proposal) (s : Engine S)
      → get s.store.idem (idem_key p.client p.idempotency_key) ≡ some k
      → propose env now id nonce p s ≡ on k (pure k) s
  unfolding propose
  propose_known now id nonce k p s e = rw (e, propose) refl

  propose_again :
      (now : ℕ) (id nonce k : String) (p : Proposal) (s : Engine S)
      → Leads (idem_key p.client p.idempotency_key) k s
      → ((propose env now id nonce p s).0 ≡ ok k)
        × (keys (propose env now id nonce p s).1.store.exchanges ≡ keys s.store.exchanges)
        × ((propose env now id nonce p s).1.store.idem ≡ s.store.idem)
  unfolding Leads
  propose_again now id nonce k p s (e, (x, h)) =
      rw (propose_known now id nonce k p s e, on_pure k x s h)
        (refl, keys-put s.store.exchanges k _ x h, refl)

  propose_new_ok :
      (now : ℕ) (ex : Exchange) (key terms : String) (s : Engine S)
      → terms_hash_from_exchange env.host ex ≡ ok terms
      → propose_new env now ex key s ≡ (
        ok (proposed_exchange env now ex terms).exchange_id,
        record s {
          store =
              idem_set key
                (proposed_exchange env now ex terms).exchange_id
                (save (proposed_exchange env now ex terms) s.store);
        },
      )
  unfolding propose_new fix_terms set_deadline register save_exchange ◌>>=◌ proposed_exchange
  propose_new_ok now ex key terms s q = rw q refl

  propose_new_err :
      (now : ℕ) (ex : Exchange) (key : String) (x : CodeError) (s : Engine S)
      → terms_hash_from_exchange env.host ex ≡ err x
      → (propose_new env now ex key s).0 ≡ err (code_error x)
  unfolding propose_new fix_terms set_deadline register save_exchange ◌>>=◌
  propose_new_err now ex key x s q = rw q refl

  -- what a proposal leaves
  register-Leads :
      (x : Exchange) (key : String) (s : Engine S)
      → Leads key x.exchange_id (record s { store = idem_set key x.exchange_id (save x s.store) })
  unfolding Leads save
  register-Leads x key s =
      (rw (get-put, eq_refl key) refl, (x, rw (get-put, eq_refl x.exchange_id) refl))

  result-Leads :
      {r : Result EngineError String × Engine S} {j k : String} {u t : Engine S} (key : String)
      → r ≡ (ok j, u)
      → Leads key j u
      → r ≡ (ok k, t)
      → Leads key k t
  result-Leads {j} {k} {u} {t} key e l f =
      let p : j ≡ k = cc (e, f) in
      let q : u ≡ t = cc (e, f) in subst (λ z. Leads key z t) p (subst (λ z. Leads key j z) q l)

  on-Leads :
      (k j : String) (key : String) (s t : Engine S)
      → get s.store.idem key ≡ some j
      → on {S = S} j (pure j) s ≡ (ok k, t)
      → Leads key k t
  unfolding Leads
  on-Leads k j key s t e f = elim (Option-cases (get s.store.exchanges j)) [
    | inl missing ↦ absurd (cc (sym (on_missing j s missing) ∙ ap (λ r. r.0) f))
    | inr (x, h) ↦
        result-Leads key (on_pure j x s h)
          (e, (hydrate_vdc s.store x, rw (get-put, eq_refl j) refl)) f
  ]

  propose_new-Leads :
      (now : ℕ) (ex : Exchange) (k key : String) (s t : Engine S)
      → propose_new env now ex key s ≡ (ok k, t)
      → Leads key k t
  propose_new-Leads now ex k key s t f =
      elim (Result-cases (terms_hash_from_exchange env.host ex)) [
        | inl (terms, q) ↦
            result-Leads key (propose_new_ok now ex key terms s q) (register-Leads _ key s) f
        | inr (x, q) ↦ absurd (cc (sym (propose_new_err now ex key x s q) ∙ ap (λ r. r.0) f))
      ]

  propose_unknown :
      (now : ℕ) (id nonce : String) (p : Proposal) (s : Engine S)
      → get s.store.idem (idem_key p.client p.idempotency_key) ≡ none
      → propose env now id nonce p s
        ≡ propose_new env now
            (fresh_exchange env now id nonce p)
            (idem_key p.client p.idempotency_key)
            s
  unfolding propose
  propose_unknown now id nonce p s e = rw (e, propose) refl

  propose-Leads :
      (now : ℕ) (id nonce k : String) (p : Proposal) (s t : Engine S)
      → propose env now id nonce p s ≡ (ok k, t)
      → Leads (idem_key p.client p.idempotency_key) k t
  propose-Leads now id nonce k p s t e =
      let key = idem_key p.client p.idempotency_key in
      elim (Option-cases (get s.store.idem key)) [
        | inr (j, old) ↦ on-Leads k j key s t old (sym (propose_known now id nonce j p s old) ∙ e)
        | inl new ↦
            propose_new-Leads now (fresh_exchange env now id nonce p) k key s t
              (sym (propose_unknown now id nonce p s new) ∙ e)
      ]

  -- When `propose` has returned an id, then `propose` called next for the same client and the same
  -- idempotency key, with whatever terms, new id, nonce and time, returns that id again: it adds no
  -- exchange, and the table of idempotency keys stays as it was.
  pub propose-propose :
      (now later : ℕ) (id id' nonce nonce' k : String) (p q : Proposal) (s t : Engine S)
      → propose env now id nonce p s ≡ (ok k, t)
      → q.client ≡ p.client
      → q.idempotency_key ≡ p.idempotency_key
      → ((propose env later id' nonce' q t).0 ≡ ok k)
        × (keys (propose env later id' nonce' q t).1.store.exchanges ≡ keys t.store.exchanges)
        × ((propose env later id' nonce' q t).1.store.idem ≡ t.store.idem)
  propose-propose now later id id' nonce nonce' k p q s t e c i =
      propose_again later id' nonce' k q t (rw (c, i) (propose-Leads now id nonce k p s t e))

  later-Leads :
      (key k : String) {s t : Engine S} → Evolved (grounds env) s t → Leads key k s → Leads key k t
  unfolding Leads
  later-Leads key k e (i, (x, h)) = let (y, f, g) = e.onward k x h in (e.idem key k i, (y, f))

  -- When `propose` has returned an id in a run from the start, `uuid4` giving new ids, then whatever
  -- calls follow, raising or not, `propose` for the same client and the same idempotency key, with
  -- whatever terms, new id, nonce and time, returns that id again: it adds no exchange, and the table
  -- of idempotency keys stays as it was.
  pub propose-Run-propose :
      {rail : S} {r s t : Engine S} (now later : ℕ) (id id' nonce nonce' k : String)
      (p q : Proposal)
      → Run env (fresh_engine rail) r
      → get r.store.exchanges id ≡ none
      → propose env now id nonce p r ≡ (ok k, s)
      → Run env s t
      → q.client ≡ p.client
      → q.idempotency_key ≡ p.idempotency_key
      → ((propose env later id' nonce' q t).0 ≡ ok k)
        × (keys (propose env later id' nonce' q t).1.store.exchanges ≡ keys t.store.exchanges)
        × ((propose env later id' nonce' q t).1.store.idem ≡ t.store.idem)
  propose-Run-propose {r = r} {s = s} {t = t} now later id id' nonce nonce' k p q before fresh e
        after c i =
      let keyed = (Evolved-propose env now id nonce p r (Run-IsKeyed env before) fresh).keyed in
      let then = Evolved-Run env (subst IsKeyed (ap (λ o. o.1) e) keyed) after in
      let leads =
        later-Leads (idem_key p.client p.idempotency_key) k then
          (propose-Leads now id nonce k p r s e) in
      propose_again later id' nonce' k q t (rw (c, i) leads)
