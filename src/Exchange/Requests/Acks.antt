-- ===== src/Exchange/Requests/Acks.antt =====
-- `contract` leaves the exchange sound: an acknowledgement that it stores is a signature on the terms.
use mathlib.Core.Option.{some-injective}
use novapanda.Exchange.Requests.Grounds.{grounds}
use novapanda.Base.{
  ℕ, String, ◌≡◌, refl, some, arith, Bool, true, false, Bool-cases, inl, inr, ◌&&◌, ◌==◌, eq_iff,
  if◌then◌else◌, is_some, or_else,
}
use novapanda.Base.Dict.{Dict, put, has, get-put}
use novapanda.Base.Exec.{ok, pure, Result-cases, ◌>>=◌, ◌>>◌, modify}
use novapanda.Base.Exec.Keeps.{Leads, Leads-bind, Leads-look, Leads-Keeps, Keeps-Leads}
use novapanda.Exchange.Fields.{Exchange, Ack}
use novapanda.Exchange.Terms.{terms_hash_from_exchange, terms_fields, verify_contract_ack}
use novapanda.Exchange.Engine.{Env, Focus, update, touch, transition, set_deadline}
use novapanda.Exchange.Engine.Sound.{
  Grounds, given-SameTerms, Rest, Around, Sound, Grew-change, Kept, both_acked,
}
use novapanda.Exchange.Engine.Growth.{Keeps-update, Leads-transition, growth_rules}
use novapanda.Exchange.Methods.{
  contract_body, fix_terms, finalize_binding, note_ack, record_ack, check_ack,
}
use novapanda.StateMachine.{contracted}

-- An acknowledgement more leaves those that there are.
has-put : (d : Dict Ack) (p q : String) (x : Ack) → has d q ≡ true → has (put d p x) q ≡ true
has-put d p q x h = ground (arith, get-put d p q x)

both-put :
    (d : Dict Ack) (p c q : String) (x : Ack)
    → (has d c && has d q) ≡ true
    → (has (put d p x) c && has (put d p x) q) ≡ true
both-put d p c q x h = ground (arith, has-put d p c x, has-put d p q x)

-- The terms of an exchange give the hash that it has.
rehashed :
    (h : Grounds) (x : Exchange) (terms : String)
    → terms_hash_from_exchange h.host x ≡ ok terms
    → Sound h x
    → Sound h (record x { terms_hash = some terms })
unfolding terms_hash_from_exchange terms_fields
rehashed h x terms e s =
    let same : or_else x.terms_hash "" ≡ terms = cc (e, s.hashed) in
    record {
      hashed = e;
      acked = λ p y q. rw (← same) (s.acked p y q);
      agreed = s.agreed;
      given = given-SameTerms (ground arith) refl s;
      passed = s.passed;
    }

-- Adding a good acknowledgement.
acked_more :
    (h : Grounds) (x : Exchange) (party : String) (ack : Ack)
    → verify_contract_ack h.host party ack.signature (or_else x.terms_hash "") x.exchange_id
      ≡ ok true
    → Sound h x
    → Sound h (record x { contract_acks = put x.contract_acks party ack })
unfolding terms_hash_from_exchange terms_fields
acked_more h x party ack good s = record {
  hashed = s.hashed;
  acked = λ p b e. elim (Bool-cases (party == p)) [
    | inl q ↦
        let same : party ≡ p = (eq_iff party p).0 q in
        let is : some ack ≡ some b = rw (get-put, q) at e in
        rw (← same, ← some-injective ack b is) good
    | inr q ↦ s.acked p b (rw (get-put, q) at e)
  ];
  agreed = λ q. both-put x.contract_acks party x.client x.provider ack (s.agreed q);
  given = given-SameTerms (ground arith) refl s;
  passed = s.passed;
}

-- The method goes on with a signature that the host accepts.
abbrev Signed :
    {S : Type 0} → Grounds → Exchange → String → Rest → String → String → Focus S → Type 0
Signed h a k rest party signature f =
    Around h a k rest f
    × (verify_contract_ack h.host party signature (or_else f.ex.terms_hash "") f.ex.exchange_id
        ≡ ok true)

abbrev Agreed : {S : Type 0} → Grounds → Exchange → String → Rest → Focus S → Type 0
Agreed h a k rest f = Around h a k rest f × (both_acked f.ex ≡ true)

module _ {S : Type 0} (env : Env S) (now : ℕ) {a : Exchange} {k : String} {rest : Rest} where
  Keeps-fix_terms : Kept {S = S} (grounds env) a k rest (fix_terms env now)
  unfolding fix_terms ◌>>=◌
  Keeps-fix_terms = record {
    at = λ f w. elim (Result-cases (terms_hash_from_exchange env.host f.ex)) [
      | inr (x, e) ↦ rw e w
      | inl (terms, e) ↦ rw e (record {
        keyed = w.keyed;
        apart = w.apart;
        idem = w.idem;
        grew =
            Grew-change w.grew refl (omega arith) (ground arith)
              (rehashed (grounds env) f.ex terms e);
      })
    ];
  }

  Keeps-finalize_binding : Kept {S = S} (grounds env) a k rest (finalize_binding env now)
  unfolding finalize_binding
  Keeps-finalize_binding = Keeps-update _ (λ x. ground arith)

  pub Keeps-touch : Kept {S = S} (grounds env) a k rest (update (touch env now))
  Keeps-touch = Keeps-update _ (λ x. ground arith)

  Leads-put :
      (party signature : String)
      → Leads
          (Signed {S = S} (grounds env) a k rest party signature)
          (Around (grounds env) a k rest)
          (update (λ ex. record ex {
            contract_acks =
                put ex.contract_acks party
                  (record { signature = signature; at = env.host.iso now });
          }))
  unfolding modify
  Leads-put party signature = record {
    at = λ f (w, good). record {
      keyed = w.keyed;
      apart = w.apart;
      idem = w.idem;
      grew =
          Grew-change w.grew refl (omega arith) (ground arith)
            (acked_more (grounds env) f.ex party _ good);
    };
  }

  Leads-bound :
      (b : Bool)
      → Leads
          (Agreed {S = S} (grounds env) a k rest)
          (Agreed {S = S} (grounds env) a k rest)
          (if b then pure tt else finalize_binding env now)
  unfolding finalize_binding modify pure
  Leads-bound true = record { at = λ f w. w }
  Leads-bound false = record { at = λ f (w, both). (Keeps-finalize_binding.at f w, both) }

  Leads-contracted :
      Leads
        (Agreed {S = S} (grounds env) a k rest)
        (Around (grounds env) a k rest)
        (transition env now contracted)
  Leads-contracted =
      Leads-transition env now contracted (λ f w. w.0) (λ f w _ s p. w.1)
        (λ f w _ s p. absurd (cc p))

  Leads-agree :
      (b : Bool)
      → Leads (Agreed {S = S} (grounds env) a k rest) (Around (grounds env) a k rest) (do
        if b then pure tt else finalize_binding env now
        transition env now contracted
        set_deadline env now (some "escrow"))
  Leads-agree b =
      Leads-bind _ _ (Leads-bound b) (λ f w. w.0)
        (λ _.
          Leads-bind _ _ Leads-contracted (λ f w. w)
            (λ _. Keeps-Leads (λ f w. w) (search growth_rules)))

  Keeps-note_ack : Kept {S = S} (grounds env) a k rest (note_ack env now)
  unfolding note_ack
  Keeps-note_ack = Leads-Keeps (
      Leads-look _ _ (λ f w. elim (Bool-cases (both_acked f.ex)) [
        | inl both ↦ rw both ((Leads-agree (is_some f.ex.settlement_binding)).at f (w, both))
        | inr not_both ↦ rw not_both (Keeps-touch.at f w)
      ]))

  Leads-record_ack :
      (party signature : String)
      → Leads
          (Signed {S = S} (grounds env) a k rest party signature)
          (Around (grounds env) a k rest)
          (record_ack env now party signature)
  unfolding record_ack
  Leads-record_ack party signature =
      Leads-bind _ _ (Leads-put party signature) (λ f w. w)
        (λ _. Keeps-Leads (λ f w. w) (search (growth_rules, Keeps-note_ack)))

  Keeps-checked_ack :
      (party signature : String)
      → Kept {S = S}
          (grounds env)
          a
          k
          rest
          (do check_ack env now party signature; record_ack env now party signature)
  unfolding check_ack ◌>>=◌
  Keeps-checked_ack party signature = record {
    at = λ f w.
        elim (Result-cases (
          verify_contract_ack env.host party signature (or_else f.ex.terms_hash "")
            f.ex.exchange_id)) [
              | inr (x, e) ↦ rw e w
              | inl (true, e) ↦ rw e ((Leads-record_ack party signature).at f (w, e))
              | inl (false, e) ↦ rw e w
            ];
  }

  pub Keeps-contract :
      (party signature : String)
      → Kept {S = S} (grounds env) a k rest (contract_body env now party signature)
  unfolding contract_body
  Keeps-contract party signature =
      search (growth_rules, Keeps-checked_ack, Keeps-fix_terms) depth 16
