-- ===== src/Rails/Registry.antt =====
-- `RailRegistry` and `build_rail_registry` of novapanda/rail_registry.py.
pub mod Stubs
pub mod Built
use novapanda.Base.{
  String, Bool, true, false, not, ◌&&◌, Option, none, some, List, [], ◌∷◌, ◌++◌, ◌==◌, map,
  contains, or_else, if◌then◌else◌,
}
use novapanda.Base.Dict.{Dict, get, put}
use novapanda.Base.Exec.{Result, ok, err}
use novapanda.Base.Texts.{text_or, nonempty_or}
use novapanda.Rails.Config.{
  NodeConfig, Environ, AdapterChoice, ConfigError, unknown_rail, no_rails, no_entries,
  active_unknown, known_rail_names, RailMeta, make_adapter_for_key, meta_from_adapter,
}

pub record RailEntry : Type 0 where
  pub key : String
  pub rail_id : String
  pub adapter : AdapterChoice
  pub meta : RailMeta

pub record RailRegistry : Type 0 where
  pub entries : Dict RailEntry
  pub order : List String
  pub active_key : String

-- `{e.key: e for e in entries}`
unfoldable pub by_key : List RailEntry → Dict RailEntry → Dict RailEntry
by_key [] d = d
by_key (e ∷ es) d = by_key es (put d e.key e)

abbrev pub keys_of : List RailEntry → List String
keys_of entries = map (λ (e : RailEntry). e.key) entries

-- `RailRegistry.__init__`
unfoldable pub rail_registry : List RailEntry → String → Result ConfigError RailRegistry
rail_registry [] active_key = err no_rails
rail_registry (e ∷ es) active_key =
    if contains active_key (keys_of (e ∷ es))
    then ok
        (record { entries = by_key (e ∷ es) []; order = keys_of (e ∷ es); active_key = active_key })
    else err active_unknown

-- `self._entries[self.active_key]`, of which `active_adapter` and `active_rail_id` are fields;
-- `none` is a `KeyError`
unfoldable pub active_entry : RailRegistry → Option RailEntry
active_entry r = get r.entries r.active_key

unfoldable pub first_rail : String → Dict RailEntry → Option AdapterChoice
first_rail rail_id [] = none
first_rail rail_id ((k, e) ∷ d) =
    if e.rail_id == rail_id then some e.adapter else first_rail rail_id d

unfoldable pub adapter_for_rail_id : RailRegistry → String → Option AdapterChoice
adapter_for_rail_id r rail_id = first_rail rail_id r.entries

-- `_has_gateway_url`
unfoldable pub has_gateway_url : NodeConfig → String → Bool
has_gateway_url cfg key =
    if key == "x402"
    then not (text_or cfg.x402_gateway_url "" == "")
    else if key == "ap2"
    then not (text_or cfg.ap2_gateway_url "" == "")
    else if key == "fiat"
    then not (text_or cfg.fiat_gateway_url "" == "")
    else false

abbrev pub stub_note : String
stub_note = "stub gateway — configure URL for production rail"

abbrev pub announced : NodeConfig → String → RailMeta → RailMeta
announced cfg key meta =
    if contains key ("x402" ∷ "ap2" ∷ "fiat" ∷ []) && not (has_gateway_url cfg key)
    then record meta { environment = "dev"; note = some stub_note }
    else meta

abbrev pub entry_of : String → AdapterChoice → RailMeta → RailEntry
entry_of key adapter meta = record {
  key = key;
  rail_id = meta.rail.id;
  adapter = adapter;
  meta = meta;
}

module _ (norm lower : String → String) (env : Environ) (cfg : NodeConfig) where
  -- The loop over `keys`; the entries so far are those of `seen`.
  unfoldable pub collect : List String → List RailEntry → Result ConfigError (List RailEntry)
  collect [] entries = ok entries
  collect (raw ∷ rest) entries =
      let key = norm raw in
      elim (key == "") [
        | true ↦ collect rest entries
        | false ↦ elim (contains key (keys_of entries)) [
          | true ↦ collect rest entries
          | false ↦ elim (contains key known_rail_names) [
            | false ↦ err (unknown_rail key)
            | true ↦ elim (make_adapter_for_key norm lower env cfg key true) [
              | err x ↦ err x
              | ok adapter ↦ collect rest (
                  entries
                  ++ entry_of key adapter (announced cfg key (meta_from_adapter key adapter)) ∷ [])
            ]
          ]
        ]
      ]

  -- `cfg.default_rail or cfg.settlement or entries[0].key`, where it is a key
  abbrev pub active_of : String → List String → String
  active_of first keys =
      let active = norm (text_or cfg.default_rail (nonempty_or cfg.settlement first)) in
      if contains active keys then active else first

  abbrev pub registry_of : List RailEntry → Result ConfigError RailRegistry
  registry_of [] = err no_entries
  registry_of (e ∷ es) = rail_registry (e ∷ es) (active_of e.key (keys_of (e ∷ es)))

  unfoldable pub single_rail : Result ConfigError RailRegistry
  single_rail =
      let key = norm cfg.settlement in
      if not (contains key known_rail_names)
      then err (unknown_rail key)
      else elim (make_adapter_for_key norm lower env cfg key false) [
        | err x ↦ err x
        | ok adapter ↦ rail_registry (entry_of key adapter (meta_from_adapter key adapter) ∷ []) key
      ]

  abbrev pub registry_from : Result ConfigError (List RailEntry) → Result ConfigError RailRegistry
  registry_from (err x) = err x
  registry_from (ok entries) = registry_of entries

  unfoldable pub build_from : List String → Result ConfigError RailRegistry
  build_from [] = single_rail
  build_from (k ∷ ks) = registry_from (collect (k ∷ ks) [])

  unfoldable pub build_rail_registry : Result ConfigError RailRegistry
  build_rail_registry = build_from cfg.settlement_rails
