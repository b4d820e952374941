-- ===== src/Tests/Calls.antt =====
-- The calls of the scene, each computed by the model.
use novapanda.Base.{some}
use novapanda.Blobs.{in_table, put_blob, write_blob}
use novapanda.Exchange.Deliverables.{put_deliverable}
use novapanda.Exchange.Engine.{Env, Engine}
use novapanda.Exchange.Methods.{deliver}
use novapanda.Exchange.Queries.{get_deliverable}
use novapanda.Exchange.Queries.Returned.{deliver-get_deliverable}
use novapanda.Settlement.Mock.{MockSettlement}
use novapanda.Base.{◌≡◌, refl, ap}
use novapanda.Tests.Scene.{
  env, s1_cancelled, f4, f4_cancelled, f5, provider, s0, s1, s2, s3, s4, s5, s6, m1, m2, m3, m4, m5,
  proposal,
}
use novapanda.Exchange.Requests.Runs.{Run, start, then_step, proposes, calls}
use novapanda.Base.Exec.{ok}
use novapanda.Exchange.Requests.{cancel}
use novapanda.Canonical.Value.{str}
use mathlib.Core.Path.{subst}
use novapanda.Base.Dict.{keys, get-empty}
use novapanda.Base.Int.{pos}
use novapanda.Exchange.Requests.Retries.{propose-Run-propose}
use novapanda.Exchange.Deliverables.{
  inline_ref, store_deliverable, load_deliverable, is_stored_ref, starts_with,
}
use novapanda.Exchange.Methods.{Proposal}
use novapanda.Exchange.Engine.{
  on, assert_transition, save_exchange, transition, set_deadline, capture_intent,
  assert_receipt_rail, execute_captured, settle_with_capture, fact_of, append_fact, record_outcome,
  record_settlement, snapshot_from_exchange, notify_terminal,
}
use novapanda.Exchange.Methods.{
  idem_key, fix_terms, register, propose_new, propose, finalize_binding, note_ack, record_ack,
  check_ack, contract_body, escrow_body, accept_delivery, deliver_body, accept, refuse, judge,
  verify_body,
}
use novapanda.Exchange.Closing.{settle_now, write_vdc, confirm_body, refund_to}
use novapanda.Exchange.Store.{vdc_upsert, vdc_get_by_exchange, hydrate_vdc, save, fetch}
use novapanda.Exchange.Terms.{
  timeout_fields, terms_fields, terms_hash_from_exchange, contract_ack_bytes, verify_contract_ack,
}
use novapanda.Exchange.Requests.{perform}
use novapanda.Canonical.Dump.{
  normalize, normalize_items, normalize_fields, insert_member, sort_members, canonical, dumps,
  item_texts, members,
}
use novapanda.Canonical.Text.{digit, decimal, int_text, escape, escape_all, quoted, commas, before}
use novapanda.Vdc.Document.{
  build_vdc, signed_fields, provider_signing_payload, client_signing_payload,
  provider_payload_encoding, provider_payload_bytes, client_signing_bytes,
}
use novapanda.Vdc.Sign.{provider_sign, client_sign}
use novapanda.Host.Hashing.{result_hash_of_json}
use novapanda.Reputation.Log.{core, last_hash, seal, append}
use novapanda.Settlement.Mock.{transition_hold, escrow_hold}
use novapanda.StateMachine.{◌is◌, one_of, terminal_states, transitions, is_terminal, can_transition}
use novapanda.Base.Dict.{get, put}
use novapanda.Base.Exec.{pure, gets, or_raise, modify, raise_if, continue, ◌>>=◌}
use novapanda.Base.{contains}

-- The same node, with a blob store in a table.
abbrev blob_env : Env MockSettlement
blob_env = record env { blobs = some in_table }

abbrev stored : Engine MockSettlement
stored = (deliver blob_env 4 "ex" provider (str "result") "dual_signed" "v" s4).1

-- Each call with what it gives.
computed :
    (propose env 0 "ex" "n" proposal s0 ≡ (ok "ex", s1))
    × ((on "ex" (perform env 1 m1) s1).1 ≡ s2)
    × ((on "ex" (perform env 2 m2) s2).1 ≡ s3)
    × ((on "ex" (perform env 3 m3) s3).1 ≡ s4)
    × ((on "ex" (perform env 4 m4) s4).1 ≡ s5)
    × ((on "ex" (perform env 5 m5) s5).1 ≡ s6)
    × ((on "ex" (perform env 3 cancel) s1).1 ≡ s1_cancelled)
    × (perform env 7 cancel f4 ≡ (ok tt, f4_cancelled))
    × (deliver_body env 4 provider (str "result") "dual_signed" "v" f4 ≡ (ok tt, f5))
    × (deliver blob_env 4 "ex" provider (str "result") "dual_signed" "v" s4 ≡ (ok tt, stored))
unfolding deliver put_deliverable put_blob write_blob on assert_transition save_exchange transition
    set_deadline capture_intent assert_receipt_rail execute_captured settle_with_capture fact_of
    append_fact record_outcome record_settlement snapshot_from_exchange notify_terminal idem_key
    inline_ref fix_terms register propose_new propose finalize_binding note_ack record_ack check_ack
    contract_body escrow_body store_deliverable load_deliverable is_stored_ref starts_with
    accept_delivery deliver_body accept refuse judge verify_body settle_now write_vdc confirm_body
    refund_to vdc_upsert vdc_get_by_exchange hydrate_vdc save fetch timeout_fields terms_fields
    terms_hash_from_exchange contract_ack_bytes verify_contract_ack perform normalize
    normalize_items normalize_fields insert_member sort_members canonical dumps item_texts members
    digit decimal int_text escape escape_all quoted commas before build_vdc signed_fields
    provider_signing_payload client_signing_payload provider_payload_encoding provider_payload_bytes
    client_signing_bytes provider_sign client_sign result_hash_of_json core last_hash seal append
    transition_hold escrow_hold ◌is◌ one_of terminal_states transitions is_terminal can_transition
    get put pure gets or_raise modify raise_if continue ◌>>=◌ contains
computed = (refl, refl, refl, refl, refl, refl, refl, refl, refl, refl)

call1 : propose env 0 "ex" "n" proposal s0 ≡ (ok "ex", s1)
call1 = computed.0

call2 : (on "ex" (perform env 1 m1) s1).1 ≡ s2
call2 = computed.1

call3 : (on "ex" (perform env 2 m2) s2).1 ≡ s3
call3 = computed.2

call4 : (on "ex" (perform env 3 m3) s3).1 ≡ s4
call4 = computed.3

call5 : (on "ex" (perform env 4 m4) s4).1 ≡ s5
call5 = computed.4

call6 : (on "ex" (perform env 5 m5) s5).1 ≡ s6
call6 = computed.5

cancelled_first : (on "ex" (perform env 3 cancel) s1).1 ≡ s1_cancelled
cancelled_first = computed.6

-- The client cancels an exchange whose money is held.
pub refunds : perform env 7 cancel f4 ≡ (ok tt, f4_cancelled)
refunds = computed.7

-- The provider delivers.
delivers : deliver_body env 4 provider (str "result") "dual_signed" "v" f4 ≡ (ok tt, f5)
delivers = computed.8

-- the same request with other terms
abbrev retried : Proposal
retried = record proposal { quantity = pos 7; rule_id = "other" }

pub run1 : Run env s0 s1
run1 =
    subst (λ s. Run env s0 s) (ap (λ r. r.1) call1)
      (then_step start (proposes "ex" "n" proposal 0 (get-empty "ex")))

pub run3 : Run env s1 s3
run3 =
    let second = subst (λ s. Run env s1 s) call2 (then_step start (calls "ex" m1 1)) in
    subst (λ s. Run env s1 s) call3 (then_step second (calls "ex" m2 2))

propose-Run-propose_example :
    ((propose env 9 "ex2" "n2" retried s3).0 ≡ ok "ex")
    × (keys (propose env 9 "ex2" "n2" retried s3).1.store.exchanges ≡ keys s3.store.exchanges)
    × ((propose env 9 "ex2" "n2" retried s3).1.store.idem ≡ s3.store.idem)
propose-Run-propose_example =
    propose-Run-propose env 0 9 "ex" "ex2" "n" "n2" "ex" proposal retried start (get-empty "ex")
      call1 run3 refl refl

pub run03 : Run env s0 s3
run03 =
    let second = subst (λ s. Run env s0 s) call2 (then_step run1 (calls "ex" m1 1)) in
    subst (λ s. Run env s0 s) call3 (then_step second (calls "ex" m2 2))

pub to_cancelled : Run env s0 s1_cancelled
to_cancelled = subst (λ s. Run env s0 s) cancelled_first (then_step run1 (calls "ex" cancel 3))

pub run6 : Run env s0 s6
run6 =
    let first = run1 in
    let second = subst (λ s. Run env s0 s) call2 (then_step first (calls "ex" m1 1)) in
    let third = subst (λ s. Run env s0 s) call3 (then_step second (calls "ex" m2 2)) in
    let fourth = subst (λ s. Run env s0 s) call4 (then_step third (calls "ex" m3 3)) in
    let fifth = subst (λ s. Run env s0 s) call5 (then_step fourth (calls "ex" m4 4)) in
    subst (λ s. Run env s0 s) call6 (then_step fifth (calls "ex" m5 5))

deliver-get_deliverable_example : (get_deliverable blob_env "ex" stored).0 ≡ ok (str "result")
deliver-get_deliverable_example =
    deliver-get_deliverable blob_env 4 (str "result") "ex" provider "dual_signed" "v" s4 stored
      (λ ref v r e. absurd (cc (e, get-empty ref))) computed.9
