-- ===== src/Reputation/Log.antt =====
-- Entries, `append`, `append_imported`, `entries` and `verify_chain`. The store of the ledger is the
-- list of its entries, as in `InMemoryReputationStore`.
pub mod Chain
use novapanda.Base.{
  ℕ, zero, suc, ◌+◌, String, Bool, true, false, not, ◌||◌, Option, none, some, List, [], ◌∷◌, ◌++◌,
  ◌==◌, eqb, if◌then◌else◌,
}
use novapanda.Base.Int.{ℤ, pos}
use novapanda.Base.Seq.{length}
use novapanda.Base.Exec.{Result, ok, err}
use novapanda.Canonical.Value.{Json, null, int, str, obj, Fields, done, field}
use novapanda.Canonical.Text.{◌⋅◌}
use novapanda.Host.Params.{Host, Identity}
use novapanda.Host.Hashing.{CodeError, canonical_bytes, ◌>>=◌}

-- `external_ref` of a mirrored entry
pub record External : Type 0 where
  pub source_node_id : String
  pub source_entry_hash : String
  pub source_seq : ℕ

-- What the caller says of an outcome.
pub record Fact : Type 0 where
  pub agent_id : String
  pub counterparty : String
  pub exchange_id : String
  pub vdc_id : Option String
  pub role : String
  pub outcome : String
  pub resource_type : String
  pub quantity : ℤ
  pub timestamp : String

pub record Entry : Type 0 where
  pub seq : ℕ
  pub node_id : String
  pub fact : Fact
  pub prev_hash : String
  pub mirror : Option External
  pub entry_hash : String
  pub signature : String

abbrev or_null : Option String → Json
or_null none = null
or_null (some s) = str s

abbrev mirror_fields : Option External → Fields
mirror_fields none = done
mirror_fields (some x) = field "import_kind" (str "mirror") (
    field "external_ref"
      (obj (
        field "source_node_id" (str x.source_node_id) (
          field "source_entry_hash" (str x.source_entry_hash)
            (field "source_seq" (int (pos x.source_seq)) done))))
      done)

-- The entry without `entry_hash` and `signature`.
unfoldable pub core : ℕ → String → Fact → String → Option External → Json
core seq node_id f prev_hash mirror = obj (
    field "seq" (int (pos seq)) (
      field "node_id" (str node_id) (
        field "agent_id" (str f.agent_id) (
          field "counterparty" (str f.counterparty) (
            field "exchange_id" (str f.exchange_id) (
              field "vdc_id" (or_null f.vdc_id) (
                field "role" (str f.role) (
                  field "outcome" (str f.outcome) (
                    field "resource_type" (str f.resource_type) (
                      field "quantity" (int f.quantity) (
                        field "timestamp" (str f.timestamp)
                          (field "prev_hash" (str prev_hash) (mirror_fields mirror)))))))))))))

abbrev core_of : Entry → Json
core_of e = core e.seq e.node_id e.fact e.prev_hash e.mirror

-- The hash of the last entry, or "GENESIS".
unfoldable pub last_hash : String → List Entry → String
last_hash start [] = start
last_hash start (e ∷ es) = last_hash e.entry_hash es

module _ (h : Host) where
  abbrev entry_hash_of : String → String
  entry_hash_of bytes = "sha256:" ⋅ h.sha256 bytes

  unfoldable pub seal : Identity → ℕ → Fact → String → Option External → Result CodeError Entry
  seal node seq f prev mirror = do
    bytes ← canonical_bytes h (core seq node.agent_id f prev mirror)
    ok (record {
      seq = seq;
      node_id = node.agent_id;
      fact = f;
      prev_hash = prev;
      mirror = mirror;
      entry_hash = entry_hash_of bytes;
      signature = node.sign bytes;
    })

  -- `append`, and `append_imported` where an external reference is given
  unfoldable pub append :
      Identity → Fact → Option External → List Entry → Result CodeError (List Entry)
  append node f mirror log = do
    e ← seal node (length log) f (last_hash "GENESIS" log) mirror
    ok (log ++ e ∷ [])

  -- The checks of one entry, in the order of the loop's body.
  check_entry : ℕ → String → Entry → Result CodeError Bool
  check_entry i prev e = if not (eqb e.seq i) || not (e.prev_hash == prev) then ok false else (do
    bytes ← canonical_bytes h (core_of e)
    ok (
        if entry_hash_of bytes == e.entry_hash
        then h.verify e.node_id e.signature bytes
        else false))

  chain_from : ℕ → String → List Entry → Result CodeError Bool
  chain_from i prev [] = ok true
  chain_from i prev (e ∷ es) =
      let rest = chain_from (i + 1) e.entry_hash es in
      check_entry i prev e >>= λ good. if good then rest else ok false

  unfoldable pub verify_chain : List Entry → Result CodeError Bool
  unfolding chain_from check_entry
  verify_chain log = chain_from 0 "GENESIS" log
