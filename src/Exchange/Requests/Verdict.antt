-- ===== src/Exchange/Requests/Verdict.antt =====
-- `verify` leaves the exchange sound: VERIFIED is entered on a good verdict only.
use mathlib.Core.Option.{some-injective}
use novapanda.Exchange.Requests.Grounds.{FromVerifier, grounds}
use novapanda.Base.{
  ℕ, String, ◌≡◌, refl, Option, some, arith, Bool, true, false, Bool-cases, inl, inr, if◌then◌else◌,
}
use novapanda.Base.Exec.{◌>>=◌, modify, Result-cases}
use novapanda.Base.Exec.Keeps.{Leads, Leads-bind, Keeps-Leads}
use novapanda.Exchange.Fields.{Exchange, Rule, VerifyResult}
use novapanda.Exchange.Terms.{terms_hash_from_exchange, terms_fields}
use novapanda.Exchange.Engine.{Env, Focus, assert_transition, update, transition}
use novapanda.Exchange.Engine.Sound.{
  Grounds, Rest, Around, Grew-change, Kept, verdict_passed, past_contract, past_verification,
}
use novapanda.Exchange.Engine.Growth.{Leads-transition, growth_rules}
use novapanda.Exchange.Methods.{verify_body, accept, refuse, judge, enrich}
use novapanda.Exchange.Deliverables.{load_deliverable, load_deliverable-looks}
use novapanda.StateMachine.{State, proposed, verified, can_transition}

was_past : (s : State) → can_transition s verified ≡ true → past_contract s ≡ true
unfolding can_transition
was_past proposed h = ground arith
was_past _ h = ground arith

not_yet_past : (s : State) → can_transition s verified ≡ true → past_verification s ≡ true → ⊥
unfolding can_transition
not_yet_past proposed h p = ground arith
not_yet_past _ h p = ground arith

-- The exchange may be verified, so it is delivered.
abbrev Delivered : {S : Type 0} → Grounds → Exchange → String → Rest → Focus S → Type 0
Delivered h a k rest f = Around h a k rest f × (can_transition f.ex.state verified ≡ true)

-- It is the exchange as it was found.
abbrev Open : {S : Type 0} → Grounds → Exchange → String → Rest → Exchange → Focus S → Type 0
Open h a k rest y f = Delivered h a k rest f × (y ≡ f.ex)

abbrev Judged : {S : Type 0} → Grounds → Exchange → String → Rest → Bool → Focus S → Type 0
Judged h a k rest b f = Around h a k rest f × (verdict_passed f.ex ≡ b)

module _ {S : Type 0} (env : Env S) (now : ℕ) {a : Exchange} {k : String} {rest : Rest} where
  Leads-set_result :
      (r : VerifyResult) (y : Exchange)
      → FromVerifier env y r
      → Leads
          (Open {S = S} (grounds env) a k rest y)
          (Judged {S = S} (grounds env) a k rest r.passed)
          (update (λ x. record x { verify_result = some r }))
  unfolding modify terms_hash_from_exchange terms_fields
  Leads-set_result r y g = record {
    at = λ f ((w, legal), same). (
      record {
        keyed = w.keyed;
        apart = w.apart;
        idem = w.idem;
        grew = Grew-change w.grew refl (omega arith) (ground arith) (λ s. record {
          hashed = s.hashed;
          acked = s.acked;
          agreed = s.agreed;
          given = λ v e. (y, rw same (ground arith), rw (← some-injective r v e) g);
          passed = λ p. absurd (not_yet_past f.ex.state legal p);
        });
      },
      refl,
    );
  }

  Leads-verified :
      Leads
        (Judged {S = S} (grounds env) a k rest true)
        (Around (grounds env) a k rest)
        (transition env now verified)
  Leads-verified =
      Leads-transition env now verified (λ f w. w.0)
        (λ f w legal s p. s.agreed (was_past f.ex.state legal)) (λ f w _ s p. w.1)

  Leads-verdict :
      (b : Bool)
      → Leads
          (Judged {S = S} (grounds env) a k rest b)
          (Around (grounds env) a k rest)
          (if b then accept env now else refuse env now)
  unfolding accept refuse
  Leads-verdict true =
      Leads-bind _ _ Leads-verified (λ f w. w) (λ _. Keeps-Leads (λ f w. w) (search growth_rules))
  Leads-verdict false = Keeps-Leads (λ f w. w.0) (search growth_rules depth 12)

  Leads-judge :
      (r : VerifyResult) (y : Exchange)
      → FromVerifier env y r
      → Leads
          (Open {S = S} (grounds env) a k rest y)
          (Around (grounds env) a k rest)
          (judge env now r)
  unfolding judge
  Leads-judge r y g =
      Leads-bind _ _ (Leads-set_result r y g) (λ f w. w.0) (λ _. Leads-verdict r.passed)

  -- The verdict is the verifier's on what was loaded.
  loaded-judge :
      (rule : Option Rule) (f : Focus S)
      → Around (grounds env) a k rest f
      → can_transition f.ex.state verified ≡ true
      → Around
          (grounds env)
          a
          k
          rest
          (◌>>=◌
            (load_deliverable env)
            (λ d. judge env now (enrich env now f.ex rule (env.verifier d rule)))
            f).1
  unfolding ◌>>=◌
  loaded-judge rule f w legal =
      let still = load_deliverable-looks env f in
      elim (Result-cases (load_deliverable env f).0) [
        | inr (x, e) ↦ rw (e, still) w
        | inl (d, e) ↦
            rw (e, still)
              ((Leads-judge _ f.ex (record {
                now = now;
                focus = f;
                deliverable = d;
                rule = rule;
                seen = refl;
                open_to_verify = legal;
                loaded = e;
                verdict = refl;
              })).at
                f ((w, legal), refl))
      ]

  pub Keeps-verify :
      (rule : Option Rule) → Kept {S = S} (grounds env) a k rest (verify_body env now rule)
  unfolding verify_body assert_transition ◌>>=◌
  Keeps-verify rule = record {
    at = λ f w. elim (Bool-cases (can_transition f.ex.state verified)) [
      | inr illegal ↦ rw illegal w
      | inl legal ↦ rw legal (loaded-judge rule f w legal)
    ];
  }
