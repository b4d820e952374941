-- ===== src/Vdc/Sign/DualSigned.antt =====
-- The two signatures of a VDC together.
use novapanda.Base.{String, ◌≡◌, refl, true, Option, some, ◌∙◌, arith, eq_iff}
use novapanda.Base.Exec.{Result, ok}
use novapanda.Host.Params.{Host, Identity, Signs}
use novapanda.StateMachine.{State, settled, ◌is◌}
use novapanda.Vdc.Document.{
  Signatures, Vdc, VdcError, known_encoding, provider_payload_encoding, provider_payload_bytes,
  client_signing_bytes, signed_fields, provider_signing_payload, client_signing_payload,
}
use novapanda.Vdc.Sign.{
  provider_sign, client_sign, check, verify_provider, verify_client, is_valid_settled,
}

-- Neither the state nor a signature is in what the provider signs.
provider_payload_bytes-unsigned :
    (h : Host) (v : Vdc) (s : State) (g : Signatures) (e : String)
    → provider_payload_bytes h (record v { state = s; signatures = g }) e
      ≡ provider_payload_bytes h v e
unfolding provider_payload_bytes provider_signing_payload signed_fields
provider_payload_bytes-unsigned h v s g e = refl

-- Neither the state nor the client's own signature is in what the client signs.
client_signing_bytes-unsigned :
    (h : Host) (v : Vdc) (s : State) (c : Option String)
    → client_signing_bytes h
        (record v { state = s; signatures = record v.signatures { client_sig = c } })
      ≡ client_signing_bytes h v
unfolding client_signing_bytes client_signing_payload signed_fields
client_signing_bytes-unsigned h v s c = refl

-- What a provider's signing writes.
provider_sign-ok :
    (h : Host) (p : Identity) (v v1 : Vdc) (e : String)
    → provider_sign h v p e ≡ ok v1
    → (m : String) × (provider_payload_bytes h v e ≡ ok m)
      × (v1 ≡ record v {
        signatures = record v.signatures { encoding = some e; provider_sig = some (p.sign m) };
      })
      × (v.provider ≡ p.agent_id)
      × (known_encoding e ≡ true)
unfolding provider_sign
provider_sign-ok h p v v1 e q = ground (arith, eq_iff v.provider p.agent_id)

-- What a client's signing writes.
client_sign-ok :
    (h : Host) (c : Identity) (v v2 : Vdc)
    → client_sign h v c ≡ ok v2
    → (m : String) × (client_signing_bytes h v ≡ ok m)
      × (v2 ≡ record v { signatures = record v.signatures { client_sig = some (c.sign m) } })
      × (v.client ≡ c.agent_id)
unfolding client_sign
client_sign-ok h c v v2 q = ground (arith, eq_iff v.client c.agent_id)

module _ (h : Host) (i : Identity) (signs : Signs h i) where
  -- A signature over the bytes that are checked passes the check.
  check-accepts :
      (agent m : String) (b : Result VdcError String)
      → agent ≡ i.agent_id
      → b ≡ ok m
      → check h (some (i.sign m)) agent b ≡ ok true
  unfolding check
  check-accepts agent m b a q =
      ground (arith, eq_iff (i.sign m) "", signs.not_empty m, signs.accepted m)

module _ (h : Host) (p c : Identity) (ps : Signs h p) (cs : Signs h c) (v : Vdc)
    (e m n : String) where
  -- `v` with both signatures and in its last state
  abbrev both : Vdc
  both = record v {
    state = settled;
    signatures = record {
      encoding = some e;
      provider_sig = some (p.sign m);
      client_sig = some (c.sign n);
    };
  }

  provider_accepted :
      v.provider ≡ p.agent_id
      → known_encoding e ≡ true
      → provider_payload_bytes h v e ≡ ok m
      → verify_provider h both ≡ ok true
  unfolding verify_provider provider_payload_encoding
  provider_accepted prov known bytes = rw known (
      check-accepts h p ps v.provider m (provider_payload_bytes h both e) prov
        (provider_payload_bytes-unsigned h v settled both.signatures e ∙ bytes))

  client_accepted :
      v.client ≡ c.agent_id
      → (s : Option String)
      → client_signing_bytes h (record v {
        signatures = record { encoding = some e; provider_sig = some (p.sign m); client_sig = s };
      })
        ≡ ok n
      → verify_client h both ≡ ok true
  unfolding verify_client
  client_accepted cli s bytes = check-accepts h c cs v.client n (client_signing_bytes h both) cli (
      client_signing_bytes-unsigned h
        (record both { state = v.state; signatures = record both.signatures { client_sig = s } })
        settled (some (c.sign n))
      ∙ bytes)

-- A VDC that its provider and then its client have signed is accepted as settled once its state
-- says so: the client's signature and the change of state leave the provider's signature valid.
-- This holds for both encodings, for parties whose signatures the host accepts.
pub dual_signed-is_valid_settled :
    (h : Host) (p c : Identity)
    → Signs h p
    → Signs h c
    → (v v1 v2 : Vdc) (e : String) → provider_sign h v p e ≡ ok v1
    → client_sign h v1 c ≡ ok v2
    → is_valid_settled h (record v2 { state = settled }) ≡ ok true
unfolding is_valid_settled ◌is◌
dual_signed-is_valid_settled h p c ps cs v v1 v2 e signed countersigned =
    let (m, bytes, w1, prov, known) = provider_sign-ok h p v v1 e signed in
    let (n, cbytes, w2, cli) = client_sign-ok h c v1 v2 countersigned in
    rw (w2, w1)
      (rw (
        provider_accepted h p c ps cs v e m n prov known bytes,
        client_accepted h p c ps cs v e m n (rw w1 at cli) v.signatures.client_sig
            (rw w1 at cbytes),
      ))
