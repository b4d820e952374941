-- ===== src/Rails/Registry/Stubs.antt =====
-- A gateway in memory is never announced as production, in novapanda/rail_registry.py.
use mathlib.Core.Path.{subst}
use novapanda.Base.{
  String, ◌≡◌, inl, inr, refl, sym, ap, Bool, true, false, Option, ◌==◌, contains, arith, eq_iff,
  Bool-cases,
}
use novapanda.Base.Exec.{Result, ok}
use novapanda.Base.Texts.{text_or}
use novapanda.Rails.Config.{
  NodeConfig, Environ, AdapterChoice, GatewayChoice, http, fake, mock_adapter, sandbox_adapter,
  s1_sandbox_adapter, x402_adapter, ap2_adapter, fiat_adapter, ConfigError, with_gateway,
  sandbox_for, adapter_of, make_adapter_for_key, meta_from_adapter, settlement_env_gate, gate_env,
}
use novapanda.Rails.Registry.{has_gateway_url, announced}

is_fake : GatewayChoice → Bool
is_fake (http url) = false
is_fake fake = true

-- The adapter has the gateway in memory.
unfoldable pub is_stub : AdapterChoice → Bool
unfolding is_fake
is_stub mock_adapter = false
is_stub (sandbox_adapter p) = false
is_stub (s1_sandbox_adapter u p) = false
is_stub (x402_adapter g) = is_fake g
is_stub (ap2_adapter g) = is_fake g
is_stub (fiat_adapter g) = is_fake g

no_stub :
    {x a : AdapterChoice}
    → is_stub x ≡ false
    → ◌≡◌ {A = Result ConfigError AdapterChoice} (ok x) (ok a)
    → is_stub a ≡ true
    → ⊥
no_stub {x} {a} s e h = let p : x ≡ a = cc e in cc (ap is_stub p, s, h)

-- A stub is made only where the URL is missing and stubs are allowed.
gateway_missing :
    (make : GatewayChoice → AdapterChoice) (key : String) (url : Option String) (allow : Bool)
    (a : AdapterChoice)
    → ((u : String) → is_stub (make (http u)) ≡ false)
    → with_gateway make key url allow ≡ ok a
    → is_stub a ≡ true
    → ((text_or url "" == "") ≡ true) × (allow ≡ true)
gateway_missing make key url allow a real e h = elim (Bool-cases (text_or url "" == "")) [
  | inr there ↦ absurd (no_stub (real (text_or url "")) (rw there at e) h)
  | inl missing ↦ elim (Bool-cases allow) [
    | inl yes' ↦ (missing, yes')
    | inr no' ↦ absurd (cc (rw (missing, no') at e))
  ]
]

module _ (cfg : NodeConfig) (allow : Bool) (a : AdapterChoice) where
  -- Stubs were allowed, and this one is announced as for development.
  abbrev pub Honest : String → Type 0
  Honest key = (allow ≡ true) × ((announced cfg key (meta_from_adapter key a)).environment ≡ "dev")

  Honest-x402 :
      with_gateway x402_adapter "x402" cfg.x402_gateway_url allow ≡ ok a
      → is_stub a ≡ true
      → Honest "x402"
  unfolding contains has_gateway_url is_stub
  Honest-x402 e h =
      let (m, y) =
        gateway_missing x402_adapter "x402" cfg.x402_gateway_url allow a (λ u. refl) e h in
      (y, rw m refl)

  Honest-ap2 :
      with_gateway ap2_adapter "ap2" cfg.ap2_gateway_url allow ≡ ok a
      → is_stub a ≡ true
      → Honest "ap2"
  unfolding contains has_gateway_url is_stub
  Honest-ap2 e h =
      let (m, y) = gateway_missing ap2_adapter "ap2" cfg.ap2_gateway_url allow a (λ u. refl) e h in
      (y, rw m refl)

  Honest-fiat :
      with_gateway fiat_adapter "fiat" cfg.fiat_gateway_url allow ≡ ok a
      → is_stub a ≡ true
      → Honest "fiat"
  unfolding contains has_gateway_url is_stub
  Honest-fiat e h =
      let (m, y) =
        gateway_missing fiat_adapter "fiat" cfg.fiat_gateway_url allow a (λ u. refl) e h in
      (y, rw m refl)

module _ (norm lower : String → String) (env : Environ) (cfg : NodeConfig) where
  sandbox_is_real : is_stub (sandbox_for norm lower env cfg) ≡ false
  unfolding is_stub
  sandbox_is_real = ground arith

  adapter_of-Honest :
      (key : String) (allow : Bool) (a : AdapterChoice)
      → adapter_of norm lower env cfg key allow ≡ ok a
      → is_stub a ≡ true
      → Honest cfg allow a key
  unfolding adapter_of is_stub
  adapter_of-Honest key allow a e h = elim (Bool-cases (key == "mock")) [
    | inl m ↦ absurd (no_stub {x = mock_adapter} refl (rw (m, adapter_of) at e) h)
    | inr m ↦ elim (Bool-cases (key == "sandbox")) [
      | inl s ↦ absurd (no_stub sandbox_is_real (rw (m, s, adapter_of) at e) h)
      | inr s ↦ elim (Bool-cases (key == "x402")) [
        | inl x ↦
            let k = (eq_iff key "x402").0 x in
            subst (Honest cfg allow a) (sym k) (Honest-x402 cfg allow a (rw (k, adapter_of) at e) h)
        | inr x ↦ elim (Bool-cases (key == "ap2")) [
          | inl p ↦
              let k = (eq_iff key "ap2").0 p in
              subst (Honest cfg allow a) (sym k)
                (Honest-ap2 cfg allow a (rw (k, adapter_of) at e) h)
          | inr p ↦ elim (Bool-cases (key == "fiat")) [
            | inl f ↦
                let k = (eq_iff key "fiat").0 f in
                subst (Honest cfg allow a) (sym k)
                  (Honest-fiat cfg allow a (rw (k, adapter_of) at e) h)
            | inr f ↦ absurd (cc (rw (m, s, x, p, f, adapter_of) at e))
          ]
        ]
      ]
    ]
  ]

  pub make_adapter-Honest :
      (key : String) (allow : Bool) (a : AdapterChoice)
      → make_adapter_for_key norm lower env cfg key allow ≡ ok a
      → is_stub a ≡ true
      → Honest cfg allow a key
  unfolding make_adapter_for_key
  make_adapter-Honest key allow a e =
      elim (Bool-cases (settlement_env_gate norm key (gate_env norm lower env key allow))) [
        | inl open' ↦ adapter_of-Honest key allow a (rw (open', make_adapter_for_key) at e)
        | inr shut ↦ absurd (cc (rw (shut, make_adapter_for_key) at e))
      ]
