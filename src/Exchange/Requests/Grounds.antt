-- ===== src/Exchange/Requests/Grounds.antt =====
-- What it takes that a verdict is one of the verifier, for `verify` of novapanda/exchange.py.
use novapanda.Base.{ℕ, ◌≡◌, true, Option}
use novapanda.Base.Exec.{ok}
use novapanda.Canonical.Value.{Json}
use novapanda.Exchange.Deliverables.{load_deliverable}
use novapanda.Exchange.Engine.{Env, Focus}
use novapanda.Exchange.Engine.Sound.{Grounds}
use novapanda.Exchange.Fields.{Exchange, Rule, VerifyResult}
use novapanda.Exchange.Methods.{enrich}
use novapanda.StateMachine.{verified, can_transition}

module _ {S : Type 0} (env : Env S) where
  -- The verifier gave the verdict: on what `_load_deliverable` had for the exchange, which could then be
  -- verified, with the rule that was given; and the inputs that it notes are those of the exchange.
  pub record FromVerifier (ex : Exchange) (v : VerifyResult) : Type 0 where
    pub now : ℕ
    pub focus : Focus S
    pub deliverable : Json
    pub rule : Option Rule
    pub seen : focus.ex ≡ ex
    pub open_to_verify : can_transition ex.state verified ≡ true
    pub loaded : (load_deliverable env focus).0 ≡ ok deliverable
    pub verdict : v ≡ enrich env now ex rule (env.verifier deliverable rule)

  abbrev pub grounds : Grounds
  grounds = record { host = env.host; Given = FromVerifier }
