-- ===== src/Vdc/Sign.antt =====
-- `provider_sign`, `client_sign` and the checks of novapanda/vdc.py.
pub mod DualSigned
use novapanda.Base.{
  String, Bool, true, false, not, ◌&&◌, ◌||◌, Option, none, some, ◌==◌, if◌then◌else◌, is_some,
}
use novapanda.Base.Exec.{Result, ok, err}
use novapanda.Host.Params.{Host, Identity}
use novapanda.StateMachine.{State, settled, ◌is◌}
use novapanda.Vdc.Document.{
  Vdc, VdcError, unknown_encoding, wrong_party, provider_missing, known_encoding,
  provider_payload_encoding, provider_payload_bytes, client_signing_bytes,
}

infixl 5 ◌>>=◌ ◌>>◌
abbrev pub ◌>>=◌ : {A B : Type 0} → Result VdcError A → (A → Result VdcError B) → Result VdcError B
ok a >>= f = f a
err e >>= f = err e

abbrev pub ◌>>◌ : {B : Type 0} → Result VdcError Unit → Result VdcError B → Result VdcError B
m >> k = m >>= λ _. k

abbrev pub require : Bool → VdcError → Result VdcError Unit
require true e = ok tt
require false e = err e

module _ (h : Host) where
  unfoldable pub provider_sign : Vdc → Identity → String → Result VdcError Vdc
  provider_sign v i encoding = do
    require (known_encoding encoding) unknown_encoding
    require (v.provider == i.agent_id) wrong_party
    bytes ← provider_payload_bytes h v encoding
    ok (record v {
      signatures = record v.signatures {
        encoding = some encoding;
        provider_sig = some (i.sign bytes);
      };
    })

  unfoldable pub client_sign : Vdc → Identity → Result VdcError Vdc
  client_sign v i = do
    require (v.client == i.agent_id) wrong_party
    require (is_some v.signatures.provider_sig) provider_missing
    bytes ← client_signing_bytes h v
    ok (record v { signatures = record v.signatures { client_sig = some (i.sign bytes) } })

  -- no signature, or an empty one, is refused before any bytes are made
  check : Option String → String → Result VdcError String → Result VdcError Bool
  check none agent bytes = ok false
  check (some s) agent bytes = if s == "" then ok false else (do m ← bytes; ok (h.verify agent s m))

  unfoldable pub verify_provider : Vdc → Result VdcError Bool
  unfolding check
  verify_provider v =
      check v.signatures.provider_sig v.provider
        (provider_payload_bytes h v (provider_payload_encoding v))

  unfoldable pub verify_client : Vdc → Result VdcError Bool
  unfolding check
  verify_client v = check v.signatures.client_sig v.client (client_signing_bytes h v)

  -- `and` goes on only where the left side holds
  abbrev and_then : Result VdcError Bool → Result VdcError Bool → Result VdcError Bool
  and_then m n = m >>= λ b. if b then n else ok false

  unfoldable pub is_valid_settled : Vdc → Result VdcError Bool
  is_valid_settled v =
      and_then (ok (v.state is settled)) (and_then (verify_provider v) (verify_client v))
