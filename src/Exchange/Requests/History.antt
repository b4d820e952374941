-- ===== src/Exchange/Requests/History.antt =====
-- What holds of every exchange in every run of the engine. In a run the ids that `uuid4` gives
-- for new exchanges are new, and calls may raise.
use novapanda.Exchange.Requests.Grounds.{grounds}
use novapanda.Base.{
  ℕ, ◌≤◌, String, ◌≡◌, refl, inl, inr, Bool, true, some, [], Option-cases, arith, or_else, ◌&&◌,
}
use novapanda.Base.Dict.{get, has, get-empty}
use novapanda.Base.Exec.{ok}
use novapanda.Exchange.Fields.{Exchange, Ack}
use novapanda.Exchange.Store.{empty_store}
use novapanda.Exchange.Engine.{Env, Engine}
use novapanda.Exchange.Engine.Sound.{Grounds, Sound, Grew, past_contract}
use novapanda.Host.Params.{Host}
use novapanda.Exchange.Terms.{terms_hash_from_exchange, verify_contract_ack}
use novapanda.Exchange.Requests.Engines.{IsKeyed}
use novapanda.StateMachine.{State, proposed, is_terminal}
use novapanda.StateMachine.Lifecycle.{Life, born, step, six_transitions_at_most, terminal_iff_stuck}
use novapanda.Exchange.Requests.Births.{Born}
use novapanda.Exchange.Requests.Runs.{Run, Evolved-Run}

-- An engine that has just started, on a rail in any state.
abbrev pub fresh_engine : {S : Type 0} → S → Engine S
fresh_engine rail = record { store = empty_store; rail = rail; ledger = []; told = []; blobs = [] }

stuck : (s t : State) {n : ℕ} → is_terminal s ≡ true → Life s t n → t ≡ s
stuck s t end born = refl
stuck s t end (step {t = u} l h) =
    let same : u ≡ s = stuck s u end l in absurd (cc (h, same, (terminal_iff_stuck s).0 end t))

-- The party has acknowledged the terms with a signature that the host accepts.
abbrev pub IsSigned : Host → Exchange → String → Type 0
IsSigned h x party =
    (a : Ack) × (get x.contract_acks party ≡ some a)
    × (verify_contract_ack h party a.signature (or_else x.terms_hash "") x.exchange_id ≡ ok true)

acknowledged_by :
    {h : Grounds} {x : Exchange}
    → Sound h x
    → (party : String) → has x.contract_acks party ≡ true
    → IsSigned h.host x party
acknowledged_by {x = x} s party there = elim (Option-cases (get x.contract_acks party)) [
  | inl absent ↦ absurd (cc (rw absent at there))
  | inr (a, e) ↦ (a, e, s.acked party a e)
]

and_parts : (a b : Bool) → (a && b) ≡ true → (a ≡ true) × (b ≡ true)
and_parts a b h = ground arith

fresh-IsKeyed : {S : Type 0} (rail : S) → IsKeyed (fresh_engine rail)
fresh-IsKeyed rail j x e = absurd (cc (e, get-empty j))

module _ {S : Type 0} (env : Env S) {rail : S} {s : Engine S} where
  pub Run-IsKeyed : Run env (fresh_engine rail) s → IsKeyed s
  Run-IsKeyed r = (Evolved-Run env (fresh-IsKeyed rail) r).keyed

  Run-Born :
      Run env (fresh_engine rail) s
      → (j : String) (x : Exchange) → get s.store.exchanges j ≡ some x
      → Born (grounds env) x
  Run-Born r j x e = elim ((Evolved-Run env (fresh-IsKeyed rail) r).origin j x e) [
    | inl (y, f, g) ↦ absurd (cc (f, get-empty j))
    | inr b ↦ b
  ]

  -- In any run of the node from its start, `uuid4` giving new ids, every exchange is stored under
  -- its own id and has come to its state from PROPOSED by legal transitions, at most one for each
  -- increment of its version, and at most six.
  pub exchange-was_proposed :
      Run env (fresh_engine rail) s
      → (j : String) (x : Exchange) → get s.store.exchanges j ≡ some x
      → (x.exchange_id ≡ j) × ((n : ℕ) × Life proposed x.state n × (n ≤ x.version) × (n ≤ 6))
  exchange-was_proposed r j x e =
      let b = Run-Born r j x e in
      (Run-IsKeyed r j x e, (b.transitions, b.life, b.version, six_transitions_at_most b.life))

  -- In any run of the node from its start, `uuid4` giving new ids, the terms hash of an exchange is
  -- the hash of its terms as they stand.
  pub terms_hash-is_current :
      Run env (fresh_engine rail) s
      → (j : String) (x : Exchange) → get s.store.exchanges j ≡ some x
      → terms_hash_from_exchange env.host x ≡ ok (or_else x.terms_hash "")
  terms_hash-is_current r j x e = (Run-Born r j x e).sound.hashed

  -- In any run of the node from its start, `uuid4` giving new ids, an exchange that is CONTRACTED
  -- or past it (as ESCROWED, DELIVERED, VERIFIED, DISPUTED, SETTLED or REJECTED) holds an
  -- acknowledgement of the client and one of the provider, each a signature that the host accepts
  -- on the terms hash of that exchange.
  pub contract-was_acknowledged :
      Run env (fresh_engine rail) s
      → (j : String) (x : Exchange) → get s.store.exchanges j ≡ some x
      → past_contract x.state ≡ true
      → IsSigned env.host x x.client × IsSigned env.host x x.provider
  contract-was_acknowledged r j x e past =
      let sound = (Run-Born r j x e).sound in
      let (c, p) = and_parts _ _ (sound.agreed past) in
      (acknowledged_by sound x.client c, acknowledged_by sound x.provider p)

  module _ {t : Engine S} where
    -- Whatever calls follow in a run from the start, `uuid4` giving new ids, raising or not: an
    -- exchange stays in the store, on the terms it was proposed with, and moves along the
    -- transition table with its version.
    pub exchange-goes_on :
        Run env (fresh_engine rail) s
        → Run env s t
        → (j : String) (x : Exchange) → get s.store.exchanges j ≡ some x
        → (y : Exchange) × (get t.store.exchanges j ≡ some y) × Grew (grounds env) x y
    exchange-goes_on r later j x e = (Evolved-Run env (Run-IsKeyed r) later).onward j x e

    -- Whatever calls follow in a run from the start, `uuid4` giving new ids, an exchange that has
    -- come to a terminal state stays in it.
    pub terminal_state-stays :
        Run env (fresh_engine rail) s
        → Run env s t
        → (j : String) (x : Exchange) → get s.store.exchanges j ≡ some x
        → is_terminal x.state ≡ true
        → (y : Exchange) × (get t.store.exchanges j ≡ some y) × (y.state ≡ x.state)
    terminal_state-stays r later j x e end =
        let (y, f, g) = exchange-goes_on r later j x e in (y, f, stuck x.state y.state end g.life)
