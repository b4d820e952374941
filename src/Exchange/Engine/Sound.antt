-- ===== src/Exchange/Engine/Sound.antt =====
-- What is true of an exchange between two changes, and how an exchange may change.
use novapanda.Base.{
  ℕ, ◌+◌, ◌≤◌, String, ◌≡◌, refl, ◌&&◌, Bool, true, false, Option, none, some, ◌==◌, arith, or_else,
}
use novapanda.Base.Dict.{Dict, get, has}
use novapanda.Base.Exec.{ok}
use novapanda.Base.Exec.Keeps.{Keeps}
use novapanda.Exchange.Fields.{Exchange, Ack, VerifyResult}
use novapanda.Exchange.Terms.{terms_fields, terms_hash_from_exchange, verify_contract_ack}
use novapanda.Exchange.Engine.{Focus, On}
use novapanda.Host.Params.{Host}
use novapanda.StateMachine.{
  State, proposed, contracted, escrowed, delivered, verified, settled, rejected, disputed,
  can_transition,
}
use novapanda.StateMachine.Lifecycle.{Life, born, step, Life-trans}

-- Both parties have acknowledged the terms.
abbrev pub both_acked : Exchange → Bool
both_acked ex = has ex.contract_acks ex.client && has ex.contract_acks ex.provider

abbrev pub verdict_passed : Exchange → Bool
verdict_passed ex = elim ex.verify_result [ none ↦ false | some r ↦ r.passed ]

-- The states that only an exchange with a contract comes to.
abbrev pub past_contract : State → Bool
past_contract contracted = true
past_contract escrowed = true
past_contract delivered = true
past_contract verified = true
past_contract disputed = true
past_contract settled = true
past_contract rejected = true
past_contract _ = false

-- The states that only an exchange with a good verdict comes to.
abbrev pub past_verification : State → Bool
past_verification verified = true
past_verification disputed = true
past_verification settled = true
past_verification _ = false

-- The states at whose entry nothing new is promised.
abbrev pub plain : State → Bool
plain contracted = false
plain verified = false
plain _ = true

pub agreed-before :
    (s t : State)
    → plain t ≡ true
    → can_transition s t ≡ true
    → past_contract t ≡ true
    → past_contract s ≡ true
unfolding can_transition
agreed-before proposed t h k p = ground arith
agreed-before _ t h k p = ground arith

pub passed-before :
    (s t : State)
    → plain t ≡ true
    → can_transition s t ≡ true
    → past_verification t ≡ true
    → past_verification s ≡ true
unfolding can_transition
passed-before proposed t h k p = ground arith
passed-before _ t h k p = ground arith

-- What the promises of an exchange rest on: the host, which checks signatures, and what it takes that a
-- verdict is given on an exchange.
pub record Grounds : Type 1 where
  pub host : Host
  pub Given : Exchange → VerifyResult → Type 0

-- The same exchange on the same terms.
pub record SameTerms (a b : Exchange) : Type 0 where
  pub id : b.exchange_id ≡ a.exchange_id
  pub client : b.client ≡ a.client
  pub provider : b.provider ≡ a.provider
  pub resource : b.resource_type ≡ a.resource_type
  pub quantity : b.quantity ≡ a.quantity
  pub rule : b.rule_id ≡ a.rule_id
  pub price : b.price ≡ a.price
  pub timeouts : b.timeouts ≡ a.timeouts
  pub key : b.idempotency_key ≡ a.idempotency_key
  pub nonce : b.nonce ≡ a.nonce
  pub settlement : b.settlement_terms ≡ a.settlement_terms

-- The terms hash is that of the terms; each acknowledgement is a signature on it by the party it
-- stands under; the verdict was given on this exchange; from CONTRACTED on both parties have
-- acknowledged; from VERIFIED on the verdict is good.
pub record Sound (h : Grounds) (x : Exchange) : Type 0 where
  pub hashed : terms_hash_from_exchange h.host x ≡ ok (or_else x.terms_hash "")
  pub acked :
      (p : String) (a : Ack)
      → get x.contract_acks p ≡ some a
      → verify_contract_ack h.host p a.signature (or_else x.terms_hash "") x.exchange_id ≡ ok true
  pub agreed : past_contract x.state ≡ true → both_acked x ≡ true
  pub given :
      (v : VerifyResult) → x.verify_result ≡ some v → (y : Exchange) × SameTerms y x × h.Given y v
  pub passed : past_verification x.state ≡ true → verdict_passed x ≡ true

pub hash-SameTerms :
    (h : Host) {a b : Exchange}
    → SameTerms a b
    → terms_hash_from_exchange h b ≡ terms_hash_from_exchange h a
unfolding terms_hash_from_exchange terms_fields
hash-SameTerms h t =
    rw
      (
        t.id, t.client, t.provider, t.resource, t.quantity, t.rule, t.price, t.timeouts, t.key,
        t.nonce, t.settlement,
      )
      refl

-- From `a` to `b` an exchange has made some legal transitions, at most one for each version.
pub record Grew (h : Grounds) (a b : Exchange) : Type 0 where
  pub transitions : ℕ
  pub life : Life a.state b.state transitions
  pub version : a.version + transitions ≤ b.version
  pub terms : SameTerms a b
  pub sound : Sound h a → Sound h b

-- `b` is `a` after a change that is no transition.
pub record Side (a b : Exchange) : Type 0 where
  pub state : b.state ≡ a.state
  pub version : a.version ≤ b.version
  pub terms : SameTerms a b
  pub hash : b.terms_hash ≡ a.terms_hash
  pub acks : b.contract_acks ≡ a.contract_acks
  pub verdict : b.verify_result ≡ a.verify_result

pub SameTerms-trans : {a b c : Exchange} → SameTerms a b → SameTerms b c → SameTerms a c
SameTerms-trans h k = ground arith

pub given-SameTerms :
    {h : Grounds} {a b : Exchange}
    → SameTerms a b
    → b.verify_result ≡ a.verify_result
    → Sound h a
    → (v : VerifyResult) → b.verify_result ≡ some v
    → (y : Exchange) × SameTerms y b × h.Given y v
given-SameTerms t same s v e =
    let (y, u, g) = s.given v (rw same at e) in (y, SameTerms-trans u t, g)

Sound-Side : {h : Grounds} {a b : Exchange} → Side a b → Sound h a → Sound h b
Sound-Side {h} {a} {b} d s = record {
  hashed = rw (hash-SameTerms h.host d.terms, d.hash) s.hashed;
  acked = λ p x e. rw (d.hash, d.terms.id) (s.acked p x (rw d.acks at e));
  agreed = λ q. rw (d.acks, d.terms.client, d.terms.provider) (s.agreed (rw d.state at q));
  given = given-SameTerms d.terms d.verdict s;
  passed = λ q. rw d.verdict (s.passed (rw d.state at q));
}

module _ {h : Grounds} where
  pub Grew-refl : (a : Exchange) → Grew h a a
  Grew-refl a = record {
    transitions = 0;
    life = born;
    version = omega arith;
    terms = ground arith;
    sound = λ s. s;
  }

  -- A change that is no transition, and after which the exchange is still sound.
  pub Grew-change :
      {a b c : Exchange}
      → Grew h a b
      → c.state ≡ b.state
      → b.version ≤ c.version
      → SameTerms b c
      → (Sound h b → Sound h c)
      → Grew h a c
  Grew-change g e v t s = record {
    transitions = g.transitions;
    life = rw e g.life;
    version = omega (arith, g.version, v);
    terms = SameTerms-trans g.terms t;
    sound = λ x. s (g.sound x);
  }

  pub Grew-Side : {a b c : Exchange} → Grew h a b → Side b c → Grew h a c
  Grew-Side g d = Grew-change g d.state d.version d.terms (Sound-Side d)

  pub Grew-step :
      {a b c : Exchange}
      → Grew h a b
      → can_transition b.state c.state ≡ true
      → b.version + 1 ≤ c.version
      → SameTerms b c
      → (Sound h b → Sound h c)
      → Grew h a c
  Grew-step g legal v t s = record {
    transitions = g.transitions + 1;
    life = step g.life legal;
    version = omega (arith, g.version, v);
    terms = SameTerms-trans g.terms t;
    sound = λ x. s (g.sound x);
  }

  pub Grew-trans : {a b c : Exchange} → Grew h a b → Grew h b c → Grew h a c
  Grew-trans {a} {b} {c} g k = record {
    transitions = g.transitions + k.transitions;
    life = Life-trans g.life k.life;
    version = omega (arith, g.version, k.version);
    terms = SameTerms-trans g.terms k.terms;
    sound = λ x. k.sound (g.sound x);
  }

-- What a method that works on one exchange leaves as it is: the other exchanges, by their keys, and
-- the table of idempotency keys.
pub record Rest : Type 0 where
  pub others : String → Option Exchange
  pub idem : Dict String

-- The invariant of a method that began with `a` at the key `k`.
pub record Around {S : Type 0} (h : Grounds) (a : Exchange) (k : String) (rest : Rest) (f : Focus S)
    : Type 0 where
  pub keyed : a.exchange_id ≡ k
  pub apart : (j : String) → (k == j) ≡ false → get f.eng.store.exchanges j ≡ rest.others j
  pub idem : f.eng.store.idem ≡ rest.idem
  pub grew : Grew h a f.ex

-- The method keeps that invariant.
abbrev pub Kept : {S A : Type 0} → Grounds → Exchange → String → Rest → On S A → Type 0
Kept h a k rest m = Keeps (Around h a k rest) m
