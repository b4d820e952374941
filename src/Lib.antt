-- ===== src/Lib.antt =====
-- NovaPanda: two agents, a client and a provider, exchange a result for money through a node. The
-- node drives each exchange along a table of states, holds the money in escrow with a settlement
-- adapter, checks the documents that the parties sign, and keeps a ledger of outcomes.
--
-- The parts and their files:
--
-- Base: text, integers and dicts of Python, and Exec, the methods that mutate an object and may
-- raise: what was written before a raise stays written. Base/Exec/Keeps has the rules for their
-- invariants.
-- StateMachine: novapanda/state_machine.py, the states and TRANSITIONS; Lifecycle is about whole
-- lives.
-- Settlement: novapanda/settlement.py. Contract is SettlementAdapter with the promise that the
-- engine relies on, Mock is MockSettlement, Gateway is GatewaySettlement with its rails and
-- FakeGateway, Sandbox is SandboxSettlement and S1HttpSandboxSettlement.
-- Nonces: nonce_check_and_add of both stores of novapanda/store.py.
-- SqliteStore: SQLiteStore of novapanda/store.py, its tables and its optimistic lock (Lock).
-- Stakes: novapanda/v2/stake.py, with the functions on stakes of novapanda/v2/witness.py; what has
-- ended stays so (Closed), what is found is counted (Counted).
-- Blobs: both blob stores of novapanda/blobs.py.
-- Bundle: validation and topological_order of novapanda/bundle.py; `rounds` has as many rounds as
-- the bundle has exchanges and one, which Order shows to be enough.
-- Canonical: novapanda/canonical.py: values, their normal form and their JSON text. Reordered has
-- the objects that differ in the order of keys only and the text in one pass, Written shows that
-- text, Independent compares the bytes.
-- Host: novapanda/hashing.py and novapanda/v1/cbor_codec.py over what comes from third-party
-- packages, which are parameters: Ed25519, SHA-256, NFC, cbor2 and the form of a time. A theorem
-- that needs a promise of them says so; Signs is the promise of a key's owner.
-- Vdc: novapanda/vdc.py: building (Document), signing and checking (Sign).
-- Reputation: novapanda/reputation.py: the hash chain of a node's ledger.
-- Exchange: novapanda/exchange.py with novapanda/terms.py (Terms) and InMemoryStore of
-- novapanda/store.py (Store). Fields is the dataclass. Engine is the engine's state and its private
-- helpers: `on` is `get` and the write back, `transition` is `_transition`, `settle_with_capture`
-- is `_settle_with_capture`. Methods has `propose` to `verify`, Closing `ingest_delivery` to
-- `expire`, Upkeep `recover` and `sweep`. Deliverables writes deliverables to the exchange or to
-- the blob store of the engine and finds them there. Queries has what is only asked, with
-- terms_hash_from_dict. A public method named m is m, on the exchange that it fetches m_body.
-- Requests has all methods in one table, `perform`, and what holds of every run: Runs has the
-- steps, Grounds says when a verdict is the verifier's, History, Endings, Retries and Sweeps the
-- theorems.
-- Rails: novapanda/rail_registry.py: which rail an exchange is paid on (negotiate_rail in Rails,
-- Choice and Bindings), quotes (Quotes), the adapters that a configuration asks for (Config) and
-- the registry (Registry). The engine is modelled on one rail; a registry stands beside it.
-- Claims: novapanda/node/claim_registry.py and novapanda/node/claim_mock.py (Mock): claims, the
-- signed assignments between their holders (Provenance), their end (Closed) and the file (Durable).
-- Autonomy: novapanda/autonomy/dispatcher.py (Dispatcher) and novapanda/autonomy/orchestrator.py:
-- the graph of sub-tasks (`_execute_dag` is attempt, exec_leg, pass and rounds in Orchestrator;
-- `run` in Run), over any runner. Schedule, Passes, Ends and Progress have what holds of a run,
-- Watched what a runner is told to start, by a list of it that does not change the run (Erased).
-- The `while` gets one round more than there are tasks, which is enough, since each round that goes
-- on starts a task.
-- Wallet: novapanda/wallet/types.py, the ledger in memory with its paymaster and accounts of
-- novapanda/wallet/manager.py (Ledger) and novapanda/wallet/settlement_bridge.py over them
-- (Bridge): Covered has what its vaults hold, Calls and Payments what each call leaves of that,
-- Payouts what a release pays; Releases and Adapter make it a rail of the engine.
-- Delegation: novapanda/delegate.py, the credentials by which an agent acts for another; Platform
-- is what the registry takes from the host and from Python, Quota, Charges and Within have what its
-- quota lets through, Revoked what a revocation stops.
-- Composer: novapanda/composer.py, the legs of a bundle: Ends and Finish have when `run_all` ends.
-- Its `while` need not end; it gets one round more than there are legs, which is enough under the
-- conditions of that theorem.
-- Tests: one exchange computed call by call, and the theorems applied to it.
--
-- How the parts interact: the engine calls the adapter through `rail_call` and `call`, the rail
-- being a state of any type; it signs and checks through Vdc; it writes outcomes through
-- Reputation; observers get a snapshot (`snapshot_from_exchange` of novapanda/marketplace/sink.py)
-- on each end. Time and fresh ids are arguments of each call. InMemoryStore hands out the object it
-- holds, so a method that raises leaves what it wrote: `back` puts the exchange back in both cases.
-- All loops of the engine are over lists and need no fuel.
--
-- Not modelled: the engine with a rail registry, which it has only where it is given one; more than
-- one observer; the methods of the engine on witnesses and stakes; the engine runs on
-- InMemoryStore; the gateways over HTTP and the web application, which are input and output; the
-- marketplace, chains over RPC and the clients of a node, which stand outside the engine. A receipt
-- has the fields that the engine reads. A verifier is a parameter.
pub mod Base
pub mod StateMachine
pub mod Settlement
pub mod Canonical
pub mod Host
pub mod Vdc
pub mod Exchange
pub mod Reputation
pub mod Nonces
pub mod Stakes
pub mod Blobs
pub mod SqliteStore
pub mod Bundle
pub mod Rails
pub mod Claims
pub mod Autonomy
pub mod Wallet
pub mod Delegation
pub mod Composer
pub mod Tests
