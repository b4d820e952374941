-- ===== src/Tests/Rails.antt =====
-- The theorems on the rails, at concrete inputs.
use novapanda.Base.{String, Option, none, some, List, [], ◌∷◌, ◌≡◌, refl, map, contains}
use novapanda.Base.Int.{pos}
use novapanda.Base.Dict.{get, put}
use novapanda.Base.Exec.{ok}
use novapanda.Base.Texts.{nonempty_or}
use novapanda.Rails.{
  Rail, RailTerms, RailPrice, Binding, default_thresholds, infer_amount_class,
  amount_in_micropay_range, class_of, completed, rank_of, rank_candidates, is_ok, filter_rails,
  eligible, negotiate_rail, finalize_settlement_binding,
}
use novapanda.Rails.Ranking.{rank_from, rank, insert_by, sort_by}
use novapanda.Rails.Choice.{Best, negotiate_rail-Best}
use novapanda.Rails.Bindings.{Justified, finalize_settlement_binding-Justified}
use novapanda.Rails.Quotes.{QuoteReport, quote_rail, quote_settlement}
use novapanda.Rails.Quotes.Advice.{Agrees, quote_settlement-Agrees}
use novapanda.Rails.Config.{
  NodeConfig, Environ, mock_adapter, x402_adapter, fake, settlement_env_gate, adapter_of,
  make_adapter_for_key, meta_from_adapter,
}
use novapanda.Rails.Registry.{
  RailRegistry, by_key, rail_registry, has_gateway_url, announced, entry_of, collect, build_from,
  build_rail_registry,
}
use novapanda.Rails.Registry.Built.{IsRegistered, build_rail_registry-IsRegistered}

abbrev same : String → String
same s = s

abbrev chain_rail : Rail
chain_rail = record {
  id = "x402";
  currencies = "USDC" ∷ "USD" ∷ [];
  amount_class = "micro" ∷ "standard" ∷ [];
  micropay = some (record { min_unit = pos 1; max_unit = some (pos 100000) });
}

abbrev trial_rail : Rail
trial_rail = record { id = "mock"; currencies = "USD" ∷ []; amount_class = []; micropay = none }

abbrev two_rails : List Rail
two_rails = trial_rail ∷ chain_rail ∷ []

abbrev open_terms : RailTerms
open_terms = record {
  currency = some "USD";
  amount_class = none;
  preferred_rails = [];
  client_rails = none;
  provider_rails = none;
  fallback = none;
}

-- a small amount goes over the chain
small_goes_over_chain :
    negotiate_rail same default_thresholds open_terms two_rails (some (pos 20)) none none
    ≡ ok (some "x402")
unfolding negotiate_rail class_of infer_amount_class rank_candidates sort_by insert_by rank_of rank
    rank_from eligible filter_rails is_ok amount_in_micropay_range contains
small_goes_over_chain = refl

small_is_micro : class_of default_thresholds open_terms (some (pos 20)) ≡ ok "micro"
unfolding class_of infer_amount_class
small_is_micro = refl

negotiate_rail-Best_example :
    (found : Option String) × (negotiate_rail same default_thresholds open_terms two_rails
        (some (pos 20))
        none
        none
      ≡ ok found)
    × Best same open_terms "micro" (some (pos 20)) none none two_rails found
negotiate_rail-Best_example =
    negotiate_rail-Best same default_thresholds open_terms two_rails (some (pos 20)) none none
      "micro" small_is_micro

abbrev price : RailPrice
price = record { amount = some (pos 20); currency = some "USD" }

abbrev bound : Binding
bound = record {
  rail = "x402";
  chosen_at = "contract";
  currency = some "USD";
  amount_class = some "micro";
  preferred_rails = [];
}

bound_is_locked :
    finalize_settlement_binding same same default_thresholds open_terms price two_rails none none
    ≡ ok bound
unfolding finalize_settlement_binding completed negotiate_rail class_of infer_amount_class
    rank_candidates sort_by insert_by rank_of rank rank_from eligible filter_rails is_ok
    amount_in_micropay_range contains
bound_is_locked = refl

finalize_settlement_binding-Justified_example :
    (full : RailTerms) × (class : String) × (completed default_thresholds open_terms price
      ≡ ok full)
    × (full.amount_class ≡ some class)
    × Justified same
        (Best same full (nonempty_or class "standard") (some (pos 20)) none none two_rails)
        full
        two_rails
        "x402"
finalize_settlement_binding-Justified_example =
    finalize_settlement_binding-Justified same same default_thresholds open_terms price two_rails
      none none bound bound_is_locked

abbrev small_report : QuoteReport
small_report = record {
  amount = pos 20;
  currency = "USD";
  amount_class = "micro";
  quotes =
      map (quote_rail same default_thresholds two_rails (pos 20) none none "USD" "micro") two_rails;
  recommended_rail = some "x402";
  routing = default_thresholds;
}

report_is_made :
    quote_settlement same default_thresholds two_rails (pos 20) none none "USD" [] ≡ ok small_report
unfolding quote_settlement negotiate_rail class_of infer_amount_class rank_candidates sort_by
    insert_by rank_of rank rank_from eligible filter_rails is_ok amount_in_micropay_range contains
report_is_made = refl

quote_settlement-Agrees_example :
    Agrees same default_thresholds two_rails
      (pos 20)
      none
      none
      "USD"
      []
      (some "x402")
      small_report.quotes
quote_settlement-Agrees_example =
    quote_settlement-Agrees same default_thresholds two_rails (pos 20) none none "USD" []
      small_report report_is_made

abbrev config : NodeConfig
config = record {
  settlement = "mock";
  settlement_rails = "x402" ∷ "mock" ∷ "x402" ∷ [];
  default_rail = some "mock";
  x402_gateway_url = none;
  ap2_gateway_url = none;
  fiat_gateway_url = none;
}

abbrev environ : Environ
environ = record { settlement_env = none; sandbox_partner = none; fiat_provider = none }

abbrev registry : RailRegistry
registry = record {
  entries =
      (
        "x402",
        entry_of "x402" (x402_adapter fake)
            (announced config "x402" (meta_from_adapter "x402" (x402_adapter fake))),
      )
      ∷ ("mock", entry_of "mock" mock_adapter (meta_from_adapter "mock" mock_adapter))
      ∷ [];
  order = "x402" ∷ "mock" ∷ [];
  active_key = "mock";
}

registry_is_built : build_rail_registry same same environ config ≡ ok registry
unfolding build_rail_registry build_from collect make_adapter_for_key settlement_env_gate adapter_of
    rail_registry by_key has_gateway_url contains put get
registry_is_built = refl

build_rail_registry-IsRegistered_example : IsRegistered registry
build_rail_registry-IsRegistered_example =
    build_rail_registry-IsRegistered same same environ config registry registry_is_built
