-- ===== src/Tests/Scene.antt =====
-- A host, two parties, a node, and the calls of one exchange.
use novapanda.Base.{ℕ, String, none, some, [], ◌∷◌, refl, ◌==◌, true}
use novapanda.Base.Int.{pos}
use novapanda.Base.Dict.{Dict}
use novapanda.Canonical.Value.{null, str, obj, done, field}
use novapanda.Host.Params.{Host, Identity, Signs}
use novapanda.Settlement.Mock.{MockSettlement, mock_settlement}
use novapanda.Exchange.Fields.{settle, refund, pending, finished, Exchange, Ack, VerifyResult}
use novapanda.Settlement.Contract.{Receipt, Status, held, refunded}
use novapanda.StateMachine.{cancelled, contracted, escrowed, delivered, verified}
use novapanda.Vdc.Document.{Vdc}
use novapanda.Exchange.Engine.{Env, Engine, Focus, Snapshot}
use novapanda.Exchange.Methods.{Proposal, fresh_exchange}
use novapanda.Exchange.Requests.{Method, contract, escrow, deliver, verify}
use novapanda.Exchange.Requests.History.{fresh_engine}

abbrev pub toy_host : Host
toy_host = record {
  nfc = λ s. s;
  sha256 = λ s. "h";
  verify = λ agent s m. s == "signed";
  cbor = λ v. none;
  iso = λ t. "t";
}

abbrev pub party : String → Identity
party name = record { agent_id = name; sign = λ m. "signed" }

abbrev pub client : Identity
client = party "c"

abbrev pub provider : Identity
provider = party "p"

pub party-Signs : (name : String) → Signs toy_host (party name)
party-Signs name = record { accepted = λ m. refl; not_empty = λ m e. cc e }

abbrev pub uuid : ℕ → String
uuid n = "u"

abbrev pub env : Env MockSettlement
env = record {
  host = toy_host;
  adapter = mock_settlement uuid;
  verifier = λ d r. record { passed = true; report = null };
  node = none;
  blobs = none;
}

abbrev pub empty_rail : MockSettlement
empty_rail = record { holds = []; drawn = 0 }

abbrev pub proposal : Proposal
proposal = record {
  client = "c";
  provider = "p";
  resource_type = "data";
  quantity = pos 1;
  rule_id = "rule";
  price = record { amount = pos 5; currency = "USD" };
  idempotency_key = "key";
  timeouts = ("confirm", 60) ∷ [];
  settlement_terms = none;
  trace_context = none;
}

abbrev pub acked : String → Ack
acked name = record { signature = "signed"; at = "t" }

-- The exchange after each call.
abbrev pub x1 : Exchange
x1 = record (fresh_exchange env 0 "ex" "n" proposal) { terms_hash = some "h" }

abbrev pub x2 : Exchange
x2 = record x1 { contract_acks = ("c", acked "c") ∷ []; version = 1 }

abbrev pub x3 : Exchange
x3 = record x2 {
  contract_acks = ("c", acked "c") ∷ ("p", acked "p") ∷ [];
  settlement_binding = some (record { rail = "mock"; chosen_at = "contract" });
  state = contracted;
  version = 2;
}

abbrev pub x4 : Exchange
x4 = record x3 { escrow_handle = some "mock-escrow-u"; state = escrowed; version = 3 }

abbrev pub document : Vdc
document = record {
  vdc_version = "0.1";
  vdc_id = "v";
  client = "c";
  provider = "p";
  resource_type = "data";
  quantity = pos 1;
  result_hash = "sha256:h";
  rule_id = "rule";
  evidence = obj (
      field "level" (str "dual_signed")
        (field "started_at" (str "t") (field "finished_at" (str "t") done)));
  state = delivered;
  idempotency_key = "key";
  nonce = "n";
  prev_hash = "GENESIS";
  created_at = "t";
  signatures = record { encoding = some "json"; provider_sig = some "signed"; client_sig = none };
}

abbrev pub x5 : Exchange
x5 = record x4 {
  deliverable = str "result";
  deliverable_ref = some "inline:ex";
  result_hash = some "sha256:h";
  vdc = some document;
  state = delivered;
  version = 4;
}

abbrev pub verdict : VerifyResult
verdict = record {
  passed = true;
  report = null;
  exchange_id = "ex";
  rule_id = "rule";
  deliverable_ref = "inline:ex";
  schema_inline = none;
}

abbrev pub x6 : Exchange
x6 = record x5 {
  verify_result = some verdict;
  state = verified;
  version = 5;
  deadline_ts = some 65;
  deadline_at = some "t";
}

abbrev pub held_rail : MockSettlement
held_rail = record {
  holds =
      (
        "mock-escrow-u",
        record { exchange_id = "ex"; amount = pos 5; currency = "USD"; status = held },
      )
      ∷ [];
  drawn = 1;
}

abbrev engine : Exchange → Dict Vdc → Dict String → MockSettlement → Engine MockSettlement
engine x vdcs by_ex rail = record {
  store = record {
    exchanges = ("ex", x) ∷ [];
    idem = ("c\0key", "ex") ∷ [];
    vdcs = vdcs;
    vdc_by_ex = by_ex;
  };
  rail = rail;
  ledger = [];
  told = [];
  blobs = [];
}

abbrev pub s0 : Engine MockSettlement
s0 = fresh_engine empty_rail

abbrev pub s1 : Engine MockSettlement
s1 = engine x1 [] [] empty_rail

abbrev pub s2 : Engine MockSettlement
s2 = engine x2 [] [] empty_rail

abbrev pub s3 : Engine MockSettlement
s3 = engine x3 [] [] empty_rail

abbrev pub s4 : Engine MockSettlement
s4 = engine x4 [] [] held_rail

abbrev pub s5 : Engine MockSettlement
s5 = engine x5 (("v", document) ∷ []) (("ex", "v") ∷ []) held_rail

abbrev pub s6 : Engine MockSettlement
s6 = engine x6 (("v", document) ∷ []) (("ex", "v") ∷ []) held_rail

abbrev pub m1 : Method
m1 = contract "c" "signed"

abbrev pub m2 : Method
m2 = contract "p" "signed"

abbrev pub m3 : Method
m3 = escrow (pos 5) "USD"

abbrev pub m4 : Method
m4 = deliver provider (str "result") "dual_signed" "v"

abbrev pub m5 : Method
m5 = verify none

-- The exchange after a cancellation that follows the proposal.
abbrev pub x1_cancelled : Exchange
x1_cancelled = record x1 { state = cancelled; version = 1 }

abbrev told : Exchange → Snapshot
told x = record {
  exchange_id = "ex";
  state = x.state;
  client = "c";
  provider = "p";
  resource_type = "data";
  quantity = pos 1;
  vdc_id = none;
  price_amount = pos 5;
  price_currency = "USD";
  outcome_hint = some "cancelled";
}

abbrev pub s1_cancelled : Engine MockSettlement
s1_cancelled = record (engine x1_cancelled [] [] empty_rail) { told = told x1_cancelled ∷ [] }

abbrev pub receipt_of : Status → Receipt
receipt_of status = record {
  handle = "mock-escrow-u";
  status = status;
  amount = pos 5;
  currency = "USD";
  rail = "mock";
}

abbrev pub closed_rail : Status → MockSettlement
closed_rail status = record held_rail {
  holds =
      (
        "mock-escrow-u",
        record { exchange_id = "ex"; amount = pos 5; currency = "USD"; status = status },
      )
      ∷ [];
}

abbrev pub f4 : Focus MockSettlement
f4 = record { ex = x4; eng = s4 }

abbrev pub x4_cancelled : Exchange
x4_cancelled = record x4 {
  state = cancelled;
  version = 5;
  settlement_receipt = some (receipt_of refunded);
  settlement_intent =
      some (record {
        action = refund;
        handle = "mock-escrow-u";
        status = finished;
        last_error = none;
      });
}

abbrev pub f4_cancelled : Focus MockSettlement
f4_cancelled = record {
  ex = x4_cancelled;
  eng = record (engine x4_cancelled [] [] (closed_rail refunded)) { told = told x4_cancelled ∷ [] };
}

-- A node that stopped between the capture of an intent and the end of the exchange.
abbrev pub crashed : String → Focus MockSettlement
crashed handle = record {
  ex = record x6 {
    settlement_intent =
        some (record { action = settle; handle = handle; status = pending; last_error = none });
  };
  eng = s6;
}

abbrev pub f5 : Focus MockSettlement
f5 = record { ex = x5; eng = s5 }
