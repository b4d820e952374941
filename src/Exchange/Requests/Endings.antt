-- ===== src/Exchange/Requests/Endings.antt =====
-- What the methods that end an exchange do when they return.
use novapanda.Base.{ℕ, ◌≡◌, String, Option, some}
use novapanda.Base.Exec.{ok, ◌>>◌}
use novapanda.Exchange.Fields.{Action, settle, refund}
use novapanda.Exchange.Engine.{Env, Focus, update}
use novapanda.Exchange.Closing.{
  settle_now, ingest_confirmation_body, confirm_body, resolve_settle, resolve_reject, refund_to,
}
use novapanda.Exchange.Requests.{
  Method, ingest_confirmation, confirm, resolve_to_settle, resolve_to_reject, cancel, expire,
  perform,
}
use novapanda.Host.Params.{Identity}
use novapanda.StateMachine.{State, settled, rejected, expired_refunded, cancelled}
use novapanda.Vdc.Document.{Vdc}
use novapanda.Exchange.Closing.Payout.{
  Paid, Closes, Closes-bind, Closes-core, quiet_rules, Keeps-assert, Keeps-set_vdc,
}

-- The state that a method of the engine brings its exchange to, and which way the money goes.
pub data Ending : Method → Action → State → Type 0 where
  confirmed : (i : Identity) → Ending (confirm i) settle settled
  confirmed_by_document : (v : Vdc) → Ending (ingest_confirmation v) settle settled
  resolved_for_provider : (r n : Option String) → Ending (resolve_to_settle r n) settle settled
  resolved_for_client : (r n : Option String) → Ending (resolve_to_reject r n) refund rejected
  was_cancelled : Ending cancel refund cancelled
  has_expired : Ending expire refund expired_refunded

module _ {S : Type 0} (env : Env S) (now : ℕ) where
  Closes-settle_now : Closes env now settle settled (settle_now env now)
  unfolding settle_now
  Closes-settle_now =
      Closes-core env now settle settled _ (λ rail q h st. search (quiet_rules) depth 9)

  Closes-refund_to : (dst : State) → Closes env now refund dst (refund_to env now dst)
  unfolding refund_to
  Closes-refund_to dst =
      Closes-bind env now refund dst _ _ (λ rail q h st. Keeps-assert env now dst)
        (λ _. Closes-core env now refund dst _ (λ rail q h st. search quiet_rules depth 9))

  -- from the last check of `ingest_confirmation` on
  Closes-documented :
      (v : Vdc)
      → Closes env now settle settled (do
        update (λ x. record x { vdc = some (record v { state = settled }) })
        settle_now env now)
  Closes-documented v =
      Closes-bind env now settle settled _ _
        (λ rail q h st. Keeps-set_vdc env now (record v { state = settled }))
        (λ _. Closes-settle_now)

  Closes-perform :
      {m : Method} {a : Action} {dst : State}
      → Ending m a dst
      → Closes env now a dst (perform env now m)
  unfolding perform confirm_body ingest_confirmation_body resolve_settle resolve_reject
  Closes-perform (confirmed i) =
      search (Closes-bind env now settle settled, Closes-settle_now, quiet_rules) depth 12
  Closes-perform (confirmed_by_document v) =
      search (Closes-bind env now settle settled, Closes-documented, quiet_rules) depth 16
  Closes-perform (resolved_for_provider r n) =
      search (Closes-bind env now settle settled, Closes-core env now settle settled, quiet_rules)
        depth 16
  Closes-perform (resolved_for_client r n) =
      search (Closes-bind env now refund rejected, Closes-core env now refund rejected, quiet_rules)
        depth 16
  Closes-perform was_cancelled = Closes-refund_to cancelled
  Closes-perform has_expired = Closes-refund_to expired_refunded

  -- When a method that ends an exchange returns, the exchange is in the state that the method names,
  -- and what was owed, an escrow handle without a receipt, has been moved the way the method names by
  -- exactly one call of the adapter, whose receipt the exchange holds; where nothing was owed, the
  -- rail and the receipt are as before.
  pub end-pays :
      {m : Method} {a : Action} {dst : State}
      → Ending m a dst
      → (f g : Focus S) → perform env now m f ≡ (ok tt, g)
      → Paid env now a f g × (g.ex.state ≡ dst)
  end-pays end f g e = (Closes-perform end).at f g e
