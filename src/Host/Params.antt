-- ===== src/Host/Params.antt =====
-- What the program takes from third-party packages and the standard library, as parameters:
-- Ed25519 behind `verify` and `Identity.sign` of novapanda/identity.py, SHA-256, Unicode
-- normalisation, `cbor2`, and the form of a time.
use novapanda.Base.{String, ℕ, Option, ◌≡◌, ◌≢◌, true, Bool}
use novapanda.Canonical.Value.{Json}

pub record Host : Type 0 where
  -- `unicodedata.normalize("NFC", s)`
  pub nfc : String → String
  -- `hashlib.sha256(s.encode()).hexdigest()`
  pub sha256 : String → String
  -- agent, signature and message; `false` where a part does not parse
  pub verify : String → String → String → Bool
  -- `cbor2.dumps(v, canonical=True)`; `none` where the package cannot be loaded
  pub cbor : Json → Option String
  -- the text of a time in seconds, `%Y-%m-%dT%H:%M:%SZ`
  pub iso : ℕ → String

-- `Identity`: whoever holds a private key. The key is only used to sign.
pub record Identity : Type 0 where
  pub agent_id : String
  pub sign : String → String

-- What Ed25519 promises of the signatures that an identity makes; and none is empty.
pub record Signs (h : Host) (i : Identity) : Type 0 where
  pub accepted : (m : String) → h.verify i.agent_id (i.sign m) m ≡ true
  pub not_empty : (m : String) → i.sign m ≢ ""
