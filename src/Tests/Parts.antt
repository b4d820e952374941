-- ===== src/Tests/Parts.antt =====
-- The theorems on the parts of the engine, at concrete inputs.
use novapanda.Base.{arith, ℕ, none, some, [], ◌∷◌, ◌≡◌, refl, true, false, contains}
use novapanda.Base.Int.{pos, ltb_ℤ}
use novapanda.Base.Dict.{get, put}
use novapanda.Base.Exec.{ok, err, ◌>>=◌}
use novapanda.Reputation.Log.{Fact, Entry, core, seal, append, last_hash, verify_chain}
use novapanda.Reputation.Log.Chain.{append-verify_chain}
use novapanda.Bundle.{
  Bundle, topological_order, validate_bundle, depends_errors, unknown_parents, rounds, start_all,
  ready, none_in, parents_of, without,
}
use novapanda.Bundle.Order.Total.{Good, topological_order-Good}
use novapanda.Nonces.{
  Seen, known, prune, check_in_database, in_database, nonce_check_and_add, serve as serve_nonces,
}
use novapanda.Nonces.Replay.{replay-is_refused}
use novapanda.Settlement.Contract
use novapanda.Settlement.Contract.{conflict, IsLawful}
use novapanda.Settlement.Gateway.{
  FakeGateway, authorized, captured, voided, authorize, fake_gateway, gateway_escrow,
  gateway_settle, gateway_refund,
}
use novapanda.Settlement.Gateway.Laws.{receipt_for, closed_ref, gateway_escrow-closes}
use novapanda.Settlement.Mock.{mock_settlement}
use novapanda.Settlement.Mock.Holds.{mock_settlement-IsLawful}
use novapanda.StateMachine.{settled}
use novapanda.Vdc.Document.{
  Vdc, unsigned, signed_fields, provider_signing_payload, client_signing_payload,
  provider_payload_encoding, provider_payload_bytes, client_signing_bytes,
}
use novapanda.Vdc.Sign.{provider_sign, client_sign, is_valid_settled}
use novapanda.Vdc.Sign.DualSigned.{dual_signed-is_valid_settled}
use novapanda.Canonical.Dump.{
  canonical, normalize, normalize_items, normalize_fields, dumps, item_texts, members,
  insert_member, sort_members,
}
use novapanda.Tests.Scene.{toy_host, party, party-Signs, client, provider, uuid, document}

mock_settlement-IsLawful_example : IsLawful (mock_settlement uuid)
mock_settlement-IsLawful_example = mock_settlement-IsLawful uuid

abbrev authorized_gateway : FakeGateway
authorized_gateway = record {
  refs =
      (
        "auth-u",
        record { exchange_id = "ex"; amount = pos 5; currency = "USD"; state = authorized },
      )
      ∷ [];
  drawn = 1;
}

escrows :
    gateway_escrow (fake_gateway uuid) "ex" (pos 5) "USD" (record { refs = []; drawn = 0 })
    ≡ (ok "auth-u", authorized_gateway)
unfolding gateway_escrow authorize ◌>>=◌ put
escrows = refl

gateway_escrow-closes_example :
    let g = fake_gateway uuid in
    let closed = closed_ref "auth-u" "ex" (pos 5) "USD" authorized_gateway in
    (ltb_ℤ (pos 5) (pos 0) ≡ false)
    × (gateway_settle "x402" g "auth-u" authorized_gateway
        ≡ (ok (receipt_for "x402" "auth-u" (pos 5) "USD" Contract.settled), closed captured))
    × (gateway_refund "x402" g "auth-u" authorized_gateway
        ≡ (ok (receipt_for "x402" "auth-u" (pos 5) "USD" Contract.refunded), closed voided))
    × (gateway_refund "x402" g "auth-u" (closed captured) ≡ (err conflict, closed captured))
    × (gateway_settle "x402" g "auth-u" (closed voided) ≡ (err conflict, closed voided))
gateway_escrow-closes_example =
    gateway_escrow-closes uuid "x402" "ex" (pos 5) "USD" "auth-u" (record { refs = []; drawn = 0 })
      authorized_gateway escrows

abbrev draft : Vdc
draft = record document { signatures = unsigned }

abbrev countersigned : Vdc
countersigned = record document {
  signatures = record document.signatures { client_sig = some "signed" };
}

first_signature : provider_sign toy_host draft provider "json" ≡ ok document
unfolding provider_sign client_sign signed_fields provider_signing_payload client_signing_payload
    provider_payload_encoding provider_payload_bytes client_signing_bytes canonical normalize
    normalize_items normalize_fields dumps item_texts members insert_member sort_members seal append
    core last_hash
first_signature = refl

second_signature : client_sign toy_host document client ≡ ok countersigned
unfolding provider_sign client_sign signed_fields provider_signing_payload client_signing_payload
    provider_payload_encoding provider_payload_bytes client_signing_bytes canonical normalize
    normalize_items normalize_fields dumps item_texts members insert_member sort_members seal append
    core last_hash
second_signature = refl

dual_signed-is_valid_settled_example :
    is_valid_settled toy_host (record countersigned { state = settled }) ≡ ok true
dual_signed-is_valid_settled_example =
    dual_signed-is_valid_settled toy_host provider client (party-Signs "p") (party-Signs "c") draft
      document countersigned "json" first_signature second_signature

abbrev fact : Fact
fact = record {
  agent_id = "p";
  counterparty = "c";
  exchange_id = "ex";
  vdc_id = some "v";
  role = "provider";
  outcome = "settled";
  resource_type = "data";
  quantity = pos 1;
  timestamp = "t";
}

abbrev entry : Entry
entry = record {
  seq = 0;
  node_id = "node";
  fact = fact;
  prev_hash = "GENESIS";
  mirror = none;
  entry_hash = "sha256:h";
  signature = "signed";
}

appended : append toy_host (party "node") fact none [] ≡ ok (entry ∷ [])
unfolding provider_sign client_sign signed_fields provider_signing_payload client_signing_payload
    provider_payload_encoding provider_payload_bytes client_signing_bytes canonical normalize
    normalize_items normalize_fields dumps item_texts members insert_member sort_members seal append
    core last_hash
appended = refl

empty_ledger-verifies : verify_chain toy_host [] ≡ ok true
unfolding verify_chain
empty_ledger-verifies = refl

append-verify_chain_example : verify_chain toy_host (entry ∷ []) ≡ ok true
append-verify_chain_example =
    append-verify_chain toy_host (party "node") (party-Signs "node") fact none [] (entry ∷ [])
      appended empty_ledger-verifies

abbrev seen_at : ℕ → Seen
seen_at t = record { agent_id = "c"; nonce = "n"; seen_at = t }

abbrev other_at : ℕ → Seen
other_at t = record { agent_id = "p"; nonce = "n"; seen_at = t }

accepted_first : (nonce_check_and_add in_database 60 (seen_at 100) (other_at 20 ∷ [])).0 ≡ true
unfolding nonce_check_and_add check_in_database known prune
accepted_first = refl

replay-is_refused_example :
    (nonce_check_and_add in_database 60 (seen_at 160) (
      serve_nonces in_database 60
        (other_at 150 ∷ [])
        (nonce_check_and_add in_database 60 (seen_at 100) (other_at 20 ∷ [])).1)).0
    ≡ false
replay-is_refused_example =
    replay-is_refused 60 (seen_at 100) in_database (other_at 20 ∷ []) (other_at 150 ∷ []) 160
      accepted_first (omega arith, tt) (omega arith)

abbrev two_steps : Bundle
two_steps = record {
  exchange_ids = "print" ∷ "design" ∷ [];
  depends_on = ("print", "design" ∷ []) ∷ [];
}

topological_order-Good_example : Good two_steps (topological_order two_steps)
topological_order-Good_example = topological_order-Good two_steps

design_comes_first : topological_order two_steps ≡ ok ("design" ∷ "print" ∷ [])
unfolding topological_order validate_bundle depends_errors unknown_parents contains rounds start_all
    ready none_in parents_of without get
design_comes_first = refl
