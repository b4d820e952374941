-- ===== src/Tests/Sweeps.antt =====
-- A sweep of the node, computed by the model, once the time to confirm is over.
use novapanda.Base.{◌≡◌, refl, contains, some, [], ◌∷◌}
use novapanda.Tests.Scene.{env, s6, x6}
use novapanda.Base.Exec.{ok, pure, gets, or_raise, modify, raise_if, continue, ◌>>=◌}
use novapanda.Exchange.Requests.{perform}
use novapanda.Base.Dict.{keys, get, put}
use novapanda.Exchange.Deliverables.{
  inline_ref, store_deliverable, load_deliverable, is_stored_ref, starts_with,
}
use novapanda.Exchange.Methods.{
  idem_key, fix_terms, register, propose_new, propose, finalize_binding, note_ack, record_ack,
  check_ack, contract_body, escrow_body, accept_delivery, deliver_body, accept, refuse, judge,
  verify_body,
}
use novapanda.Exchange.Engine.{
  on, assert_transition, save_exchange, transition, set_deadline, capture_intent,
  assert_receipt_rail, execute_captured, settle_with_capture, fact_of, append_fact, record_outcome,
  record_settlement, snapshot_from_exchange, notify_terminal, Engine,
}
use novapanda.Exchange.Closing.{settle_now, write_vdc, confirm_body, refund_to, expire}
use novapanda.Exchange.Store.{vdc_upsert, vdc_get_by_exchange, hydrate_vdc, save, fetch}
use novapanda.Exchange.Terms.{
  timeout_fields, terms_fields, terms_hash_from_exchange, contract_ack_bytes, verify_contract_ack,
}
use novapanda.Canonical.Dump.{
  normalize, normalize_items, normalize_fields, insert_member, sort_members, canonical, dumps,
  item_texts, members,
}
use novapanda.Canonical.Text.{digit, decimal, int_text, escape, escape_all, quoted, commas, before}
use novapanda.Vdc.Document.{
  build_vdc, signed_fields, provider_signing_payload, client_signing_payload,
  provider_payload_encoding, provider_payload_bytes, client_signing_bytes,
}
use novapanda.Vdc.Sign.{provider_sign, client_sign}
use novapanda.Host.Hashing.{result_hash_of_json}
use novapanda.Reputation.Log.{core, last_hash, seal, append}
use novapanda.Settlement.Mock.{transition_hold, escrow_hold, MockSettlement}
use novapanda.StateMachine.{◌is◌, one_of, terminal_states, transitions, is_terminal, can_transition}
use novapanda.Exchange.Fields.{Exchange}
use novapanda.Exchange.Upkeep.{is_due, sweep_found, sweep_one, sweep_each, sweep}
use novapanda.Exchange.Requests.Overdue.{Swept}
use novapanda.Exchange.Requests.Sweeps.{sweep-Swept}
use novapanda.Tests.Calls.{run6}

abbrev swept : Engine MockSettlement
swept = (sweep env 100 s6).1

sweeps : sweep env 100 s6 ≡ (ok ("ex" ∷ []), swept)
unfolding is_due expire sweep_found sweep_one sweep_each sweep on assert_transition save_exchange
    transition set_deadline capture_intent assert_receipt_rail execute_captured settle_with_capture
    fact_of append_fact record_outcome record_settlement snapshot_from_exchange notify_terminal
    idem_key inline_ref fix_terms register propose_new propose finalize_binding note_ack record_ack
    check_ack contract_body escrow_body store_deliverable load_deliverable is_stored_ref starts_with
    accept_delivery deliver_body accept refuse judge verify_body settle_now write_vdc confirm_body
    refund_to vdc_upsert vdc_get_by_exchange hydrate_vdc save fetch timeout_fields terms_fields
    terms_hash_from_exchange contract_ack_bytes verify_contract_ack perform normalize
    normalize_items normalize_fields insert_member sort_members canonical dumps item_texts members
    digit decimal int_text escape escape_all quoted commas before build_vdc signed_fields
    provider_signing_payload client_signing_payload provider_payload_encoding provider_payload_bytes
    client_signing_bytes provider_sign client_sign result_hash_of_json core last_hash seal append
    transition_hold escrow_hold ◌is◌ one_of terminal_states transitions is_terminal can_transition
    get put pure gets or_raise modify raise_if continue ◌>>=◌ contains keys
sweeps = refl

there : get s6.store.exchanges "ex" ≡ some x6
unfolding get
there = refl

sweep-Swept_example :
    (y : Exchange) × (get swept.store.exchanges "ex" ≡ some y)
    × Swept env 100 x6 y
    × (contains "ex" ("ex" ∷ []) ≡ is_due env 100 x6)
sweep-Swept_example = sweep-Swept env 100 ("ex" ∷ []) run6 sweeps "ex" x6 there
