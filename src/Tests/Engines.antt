-- ===== src/Tests/Engines.antt =====
-- The theorems on the engine, on the calls of the scene.
use novapanda.Exchange.Requests.Grounds.{grounds}
use novapanda.Base.{ℕ, ◌≤◌, [], ◌∷◌, none, some, ◌≡◌, refl, true}
use novapanda.Base.Dict.{get, put}
use novapanda.Base.Exec.{ok, err, ◌>>=◌}
use novapanda.Exchange.Fields.{Exchange, settle, refund}
use novapanda.Exchange.Engine.{on}
use novapanda.Exchange.Engine.Sound.{Grew}
use novapanda.Exchange.Terms.{terms_hash_from_exchange}
use novapanda.Exchange.Closing.Payout.{Paid}
use novapanda.Exchange.Upkeep.{recover_one}
use novapanda.Exchange.Upkeep.Recovery.{
  Done, at_rail, Fails, after_rounds, recover-after_crash, recover-after_failures,
}
use novapanda.Exchange.Requests.{perform}
use novapanda.Exchange.Requests.Runs.{start, then_step, calls}
use novapanda.Exchange.Requests.Endings.{was_cancelled, end-pays}
use novapanda.Exchange.Requests.History.{
  IsSigned, exchange-was_proposed, exchange-goes_on, terminal_state-stays, terms_hash-is_current,
  contract-was_acknowledged,
}
use novapanda.Settlement.Contract.{settled as status_settled, unknown_handle}
use novapanda.Settlement.Mock.{MockSettlement, transition_hold}
use novapanda.Settlement.Mock.Holds.{mock_settlement-IsLawful}
use novapanda.StateMachine.{
  proposed, cancelled, verified, settled, transitions, can_transition, is_terminal, ◌is◌, one_of,
  terminal_states,
}
use novapanda.StateMachine.Lifecycle.{Life}
use novapanda.Tests.Scene.{
  env, uuid, s1, s3, s6, x1, x3, x6, m1, s1_cancelled, x1_cancelled, f4, f4_cancelled, crashed,
  receipt_of, closed_rail, held_rail,
}
use novapanda.Tests.Calls.{run1, run3, run03, run6, to_cancelled, refunds}

stored1 : get s1.store.exchanges "ex" ≡ some x1
unfolding get
stored1 = refl

stored3 : get s3.store.exchanges "ex" ≡ some x3
unfolding get
stored3 = refl

stored6 : get s6.store.exchanges "ex" ≡ some x6
unfolding get
stored6 = refl

stored_cancelled : get s1_cancelled.store.exchanges "ex" ≡ some x1_cancelled
unfolding get
stored_cancelled = refl

exchange-was_proposed_example :
    (x6.exchange_id ≡ "ex") × ((n : ℕ) × Life proposed x6.state n × (n ≤ x6.version) × (n ≤ 6))
exchange-was_proposed_example = exchange-was_proposed env run6 "ex" x6 stored6

exchange-goes_on_example :
    (y : Exchange) × (get s3.store.exchanges "ex" ≡ some y) × Grew (grounds env) x1 y
exchange-goes_on_example = exchange-goes_on env run1 run3 "ex" x1 stored1

cancelled-is_terminal : is_terminal cancelled ≡ true
unfolding is_terminal terminal_states one_of ◌is◌
cancelled-is_terminal = refl

terminal_state-stays_example :
    (y : Exchange) × (get (on "ex" (perform env 9 m1) s1_cancelled).1.store.exchanges "ex" ≡ some y)
    × (y.state ≡ cancelled)
terminal_state-stays_example =
    terminal_state-stays env to_cancelled (then_step start (calls "ex" m1 9)) "ex" x1_cancelled
      stored_cancelled cancelled-is_terminal

terms_hash-is_current_example : terms_hash_from_exchange env.host x3 ≡ ok "h"
terms_hash-is_current_example = terms_hash-is_current env run03 "ex" x3 stored3

contract-was_acknowledged_example : IsSigned env.host x3 "c" × IsSigned env.host x3 "p"
contract-was_acknowledged_example = contract-was_acknowledged env run03 "ex" x3 stored3 refl

end-pays_example : Paid env 7 refund f4 f4_cancelled × (f4_cancelled.ex.state ≡ cancelled)
end-pays_example = end-pays env 7 was_cancelled f4 f4_cancelled refunds

paid_at_last :
    env.adapter.settle "mock-escrow-u" held_rail
    ≡ (ok (receipt_of status_settled), closed_rail status_settled)
unfolding transition_hold ◌>>=◌ get put
paid_at_last = refl

-- The rail as it is while it has lost its holds.
abbrev down_rail : MockSettlement
down_rail = record { holds = []; drawn = 1 }

unknown_at_rail : env.adapter.settle "mock-escrow-u" down_rail ≡ (err unknown_handle, down_rail)
unfolding transition_hold ◌>>=◌ get put
unknown_at_rail = refl

verified-settles : can_transition verified settled ≡ true
unfolding can_transition transitions one_of ◌is◌
verified-settles = refl

recover-after_crash_example :
    Done
      (receipt_of status_settled)
      (closed_rail status_settled)
      settled
      (recover_one env 8 (crashed "mock-escrow-u"))
    × (recover_one env 8 (at_rail env 8 (crashed "mock-escrow-u") (closed_rail status_settled))
        ≡ recover_one env 8 (crashed "mock-escrow-u"))
recover-after_crash_example =
    recover-after_crash env (mock_settlement-IsLawful uuid) 8 (crashed "mock-escrow-u") settle
      "mock-escrow-u" none refl (closed_rail status_settled) (receipt_of status_settled)
      paid_at_last refl verified-settles

down_rail-Fails : (now : ℕ) → Fails env settle "mock-escrow-u" (now, down_rail)
unfolding Fails
down_rail-Fails now = (unknown_handle, down_rail, unknown_at_rail)

recover-after_failures_example :
    let g = after_rounds env ((8, down_rail) ∷ (9, down_rail) ∷ []) (crashed "mock-escrow-u") in
    (g.ex.state ≡ verified)
    × (g.ex.settlement_receipt ≡ none)
    × Done
        (receipt_of status_settled)
        (closed_rail status_settled)
        settled
        (recover_one env 10 (at_rail env 10 g held_rail))
recover-after_failures_example =
    recover-after_failures env settle "mock-escrow-u" ((8, down_rail) ∷ (9, down_rail) ∷ [])
      (crashed "mock-escrow-u") 10 held_rail (closed_rail status_settled)
      (receipt_of status_settled) (none, refl) (down_rail-Fails 8, (down_rail-Fails 9, tt))
      paid_at_last refl verified-settles
