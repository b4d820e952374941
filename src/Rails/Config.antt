-- ===== src/Rails/Config.antt =====
-- `_make_adapter_for_key` and `_meta_from_adapter` of novapanda/rail_registry.py with
-- `assert_settlement_env_gate` of novapanda/settlement.py: from a configured name to an adapter and
-- what the manifest says of it.
use novapanda.Base.{
  String, Bool, false, not, ◌&&◌, ◌||◌, Option, none, some, List, [], ◌∷◌, ◌==◌, contains,
  if◌then◌else◌,
}
use novapanda.Base.Int.{pos}
use novapanda.Base.Exec.{Result, ok, err}
use novapanda.Base.Texts.{text_or, nonempty_or}
use novapanda.Rails.{Rail}

abbrev pub known_rail_names : List String
known_rail_names = "mock" ∷ "sandbox" ∷ "x402" ∷ "ap2" ∷ "fiat" ∷ []

-- the members of `NodeConfig` that are read
pub record NodeConfig : Type 0 where
  pub settlement : String
  pub settlement_rails : List String
  pub default_rail : Option String
  pub x402_gateway_url : Option String
  pub ap2_gateway_url : Option String
  pub fiat_gateway_url : Option String

-- the variables of the process: `NOVAPANDA_SETTLEMENT_ENV` or `SETTLEMENT_ENV`,
-- `NOVAPANDA_SANDBOX_PARTNER` and `NOVAPANDA_FIAT_PROVIDER`
pub record Environ : Type 0 where
  pub settlement_env : Option String
  pub sandbox_partner : Option String
  pub fiat_provider : Option String

-- A gateway over HTTP at its URL, or `FakeGateway()`.
pub data GatewayChoice : Type 0 where
  http : String → GatewayChoice
  fake : GatewayChoice

pub data AdapterChoice : Type 0 where
  mock_adapter : AdapterChoice
  sandbox_adapter : String → AdapterChoice
  s1_sandbox_adapter : String → String → AdapterChoice
  x402_adapter ap2_adapter fiat_adapter : GatewayChoice → AdapterChoice

-- `ValueError`
pub data ConfigError : Type 0 where
  gate_closed url_missing unknown_rail : String → ConfigError
  no_rails no_entries active_unknown : ConfigError

abbrev free_of_gate : List String
free_of_gate = "mock" ∷ "sandbox" ∷ []

abbrev open_environments : List String
open_environments = "sandbox" ∷ "mock" ∷ "dev" ∷ "test" ∷ []

-- `os.environ.get(name, default)`
abbrev or_default : Option String → String → String
or_default none d = d
or_default (some s) d = s

abbrev pub with_gateway :
    (GatewayChoice → AdapterChoice)
    → String
    → Option String
    → Bool
    → Result ConfigError AdapterChoice
with_gateway adapter key url allow_stub =
    if not (text_or url "" == "")
    then ok (adapter (http (text_or url "")))
    else if allow_stub
    then ok (adapter fake)
    else err (url_missing key)

unfoldable pub settlement_env_gate : (String → String) → String → Option String → Bool
unfolding contains
settlement_env_gate norm settlement_name settlement_env =
    contains (norm (nonempty_or settlement_name "mock")) free_of_gate
    || contains (norm (text_or settlement_env "")) open_environments

-- `strip().lower()` and `lower()` are parameters
module _ (norm lower : String → String) (env : Environ) where
  abbrev pub gate_env : String → Bool → Option String
  gate_env key allow_stub =
      if allow_stub && not (contains key free_of_gate)
      then some (text_or env.settlement_env "dev")
      else env.settlement_env

  abbrev pub sandbox_for : NodeConfig → AdapterChoice
  sandbox_for cfg =
      if text_or cfg.fiat_gateway_url "" == ""
      then sandbox_adapter (or_default env.sandbox_partner "sandbox-stub")
      else s1_sandbox_adapter (text_or cfg.fiat_gateway_url "") (
          or_default env.sandbox_partner (
            if lower (or_default env.fiat_provider "") == "stripe"
            then "stripe-sandbox"
            else "sandbox-stub"))

  unfoldable pub adapter_of : NodeConfig → String → Bool → Result ConfigError AdapterChoice
  adapter_of cfg key allow_stub =
      if key == "mock"
      then ok mock_adapter
      else if key == "sandbox"
      then ok (sandbox_for cfg)
      else if key == "x402"
      then with_gateway x402_adapter key cfg.x402_gateway_url allow_stub
      else if key == "ap2"
      then with_gateway ap2_adapter key cfg.ap2_gateway_url allow_stub
      else if key == "fiat"
      then with_gateway fiat_adapter key cfg.fiat_gateway_url allow_stub
      else err (unknown_rail key)

  unfoldable pub make_adapter_for_key :
      NodeConfig → String → Bool → Result ConfigError AdapterChoice
  make_adapter_for_key cfg key allow_stub =
      if settlement_env_gate norm key (gate_env key allow_stub)
      then adapter_of cfg key allow_stub
      else err (gate_closed key)

-- A member that is not there, the amount classes too, is none.
pub record RailMeta : Type 0 where
  pub rail : Rail
  pub family : Option String
  pub finality : String
  pub licensed : Bool
  pub environment : String
  pub partner : Option String
  pub note : Option String

unfoldable pub family_for_key : String → String
family_for_key key =
    if key == "mock"
    then "trial"
    else if key == "sandbox"
    then "fiat"
    else if key == "fiat"
    then "fiat"
    else if key == "x402"
    then "chain"
    else if key == "ap2"
    then "agent-pay"
    else "trial"

unfoldable pub default_currencies : String → List String
default_currencies key =
    if key == "x402"
    then "USDC" ∷ []
    else if key == "ap2"
    then "EUR" ∷ []
    else if key == "sandbox"
    then "USD" ∷ "EUR" ∷ []
    else "USD" ∷ []

unfoldable pub default_amount_classes : String → List String
unfolding contains
default_amount_classes key =
    if key == "x402"
    then "micro" ∷ "standard" ∷ []
    else if contains key ("fiat" ∷ "sandbox" ∷ "ap2" ∷ [])
    then "standard" ∷ "macro" ∷ []
    else "micro" ∷ "standard" ∷ "macro" ∷ []

-- `manifest_rail` of the two sandbox adapters
abbrev sandbox_meta : List String → String → RailMeta
sandbox_meta currencies partner = record {
  rail = record {
    id = "fiat-s1-sandbox";
    currencies = currencies;
    amount_class = [];
    micropay = none;
  };
  family = none;
  finality = "t+1";
  licensed = false;
  environment = "sandbox";
  partner = some partner;
  note = none;
}

-- An adapter without a `manifest_rail`.
abbrev plain_meta : String → String → String → RailMeta
plain_meta key rail_id environment = record {
  rail = record {
    id = rail_id;
    currencies = default_currencies key;
    amount_class = default_amount_classes key;
    micropay =
        if key == "x402"
        then some (record { min_unit = pos 1; max_unit = some (pos 100000) })
        else none;
  };
  family = some (family_for_key key);
  finality = if key == "mock" then "instant" else if key == "x402" then "onchain" else "t+1";
  licensed = false;
  environment = environment;
  partner = none;
  note = none;
}

unfoldable pub meta_from_adapter : String → AdapterChoice → RailMeta
unfolding family_for_key default_currencies default_amount_classes
meta_from_adapter key mock_adapter = plain_meta key key "mock"
meta_from_adapter key (sandbox_adapter partner) = sandbox_meta ("USD" ∷ []) partner
meta_from_adapter key (s1_sandbox_adapter url partner) = sandbox_meta ("USD" ∷ "EUR" ∷ []) partner
meta_from_adapter key (x402_adapter g) = plain_meta key "x402" "production"
meta_from_adapter key (ap2_adapter g) = plain_meta key "ap2" "production"
meta_from_adapter key (fiat_adapter g) = plain_meta key "fiat" "production"
