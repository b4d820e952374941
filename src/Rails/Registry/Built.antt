-- ===== src/Rails/Registry/Built.antt =====
-- What holds of a registry that `build_rail_registry` returns.
use mathlib.Core.Path.{subst}
use novapanda.Base.{
  String, ◌≡◌, ◌⊎◌, inl, inr, refl, ◌∙◌, true, false, ◌||◌, some, List, [], ◌∷◌, ◌++◌, ◌==◌,
  contains, arith, eq_iff, Bool-cases,
}
use novapanda.Base.Dict.{Dict, get, put, get-put}
use novapanda.Base.Seq.{Among, All, All-append}
use novapanda.Base.Exec.{ok, Result-cases}
use novapanda.Rails.Config.{
  NodeConfig, Environ, AdapterChoice, known_rail_names, make_adapter_for_key, meta_from_adapter,
}
use novapanda.Rails.Registry.{
  RailEntry, RailRegistry, by_key, keys_of, rail_registry, active_entry, announced, entry_of,
  collect, registry_of, registry_from, single_rail, build_from, build_rail_registry,
}
use novapanda.Rails.Registry.Stubs.{is_stub, make_adapter-Honest}

-- An entry under a known name that announces a stub as an environment for development.
pub record Proper (e : RailEntry) : Type 0 where
  pub known : contains e.key known_rail_names ≡ true
  pub same_id : e.rail_id ≡ e.meta.rail.id
  pub honest : is_stub e.adapter ≡ true → e.meta.environment ≡ "dev"

Found : List RailEntry → String → RailEntry → Type 0
Found es k e = Among e es × (e.key ≡ k)

get-by_key :
    (es : List RailEntry) (d : Dict RailEntry) (k : String)
    → ((e : RailEntry) × Found es k e × (get (by_key es d) k ≡ some e))
      ⊎ ((contains k (keys_of es) ≡ false) × (get (by_key es d) k ≡ get d k))
unfolding by_key contains Found
get-by_key [] d k = inr (refl, refl)
get-by_key (e ∷ es) d k = elim (get-by_key es (put d e.key e) k) [
  | inl (f, (m, h), g) ↦ inl (f, (inr m, h), g)
  | inr (out, g) ↦ elim (Bool-cases (e.key == k)) [
    | inl is ↦ inl (e, (inl refl, (eq_iff e.key k).0 is), g ∙ rw (get-put, is) refl)
    | inr isnt ↦ inr (rw (isnt, out) refl, g ∙ rw (get-put, isnt) refl)
  ]
]

All-Among :
    (P : RailEntry → Type 0) (es : List RailEntry) (e : RailEntry) → All P es → Among e es → P e
All-Among P [] e h m = absurd m
All-Among P (x ∷ xs) e h (inl q) = subst P q h.0
All-Among P (x ∷ xs) e h (inr m) = All-Among P xs e h.1 m

unfoldable pub Distinct : List String → Type 0
Distinct [] = Unit
Distinct (x ∷ xs) = (contains x xs ≡ false) × Distinct xs

contains-append :
    (s : String) (es : List RailEntry) (e : RailEntry)
    → contains s (keys_of (es ++ e ∷ [])) ≡ (contains s (keys_of es) || e.key == s)
unfolding contains
contains-append s [] e = ground arith
contains-append s (x ∷ xs) e = ground (arith, contains-append s xs e)

Distinct-append :
    (es : List RailEntry) (e : RailEntry)
    → Distinct (keys_of es)
    → contains e.key (keys_of es) ≡ false
    → Distinct (keys_of (es ++ e ∷ []))
unfolding Distinct contains
Distinct-append [] e d h = (refl, tt)
Distinct-append (x ∷ xs) e (out, d) h = (
  rw contains-append (ground (arith, out, eq_iff e.key x.key, eq_iff x.key e.key)),
  Distinct-append xs e d (ground arith),
)

-- The entries that a registry is made of.
Sound : List RailEntry → Type 0
Sound es = All Proper es × Distinct (keys_of es)

module _ (norm lower : String → String) (env : Environ) (cfg : NodeConfig) where
  abbrev new_entry : String → AdapterChoice → RailEntry
  new_entry key a = entry_of key a (announced cfg key (meta_from_adapter key a))

  Sound-new_entry :
      (key : String) (a : AdapterChoice) (entries : List RailEntry)
      → Sound entries
      → contains key (keys_of entries) ≡ false
      → contains key known_rail_names ≡ true
      → make_adapter_for_key norm lower env cfg key true ≡ ok a
      → Sound (entries ++ new_entry key a ∷ [])
  unfolding Sound
  Sound-new_entry key a entries (proper, distinct) fresh known made =
      let p : Proper (new_entry key a) = record {
        known = known;
        same_id = refl;
        honest = λ h. (make_adapter-Honest norm lower env cfg key true a made h).1;
      } in
      (
        All-append Proper entries (new_entry key a ∷ []) proper (p, tt),
        Distinct-append entries (new_entry key a) distinct fresh,
      )

  collect-Sound :
      (keys : List String) (entries es : List RailEntry)
      → Sound entries
      → collect norm lower env cfg keys entries ≡ ok es
      → Sound es
  unfolding collect
  collect-Sound [] entries es s e = let p : entries ≡ es = cc e in subst Sound p s
  collect-Sound (raw ∷ rest) entries es s e =
      let key = norm raw in
      elim (Bool-cases (key == "")) [
        | inl empty ↦ collect-Sound rest entries es s (rw (empty, collect) at e)
        | inr named ↦ elim (Bool-cases (contains key (keys_of entries))) [
          | inl seen ↦ collect-Sound rest entries es s (rw (named, seen, collect) at e)
          | inr fresh ↦ elim (Bool-cases (contains key known_rail_names)) [
            | inr strange ↦ absurd (cc (rw (named, fresh, strange, collect) at e))
            | inl known ↦ elim (Result-cases (make_adapter_for_key norm lower env cfg key true)) [
              | inr (x, failed) ↦ absurd (cc (rw (named, fresh, known, failed, collect) at e))
              | inl (a, made) ↦
                  collect-Sound rest (entries ++ new_entry key a ∷ []) es
                    (Sound-new_entry key a entries s fresh known made)
                    (rw (named, fresh, known, made, collect) at e)
            ]
          ]
        ]
      ]

-- A registry whose active rail is there, whose keys are listed once each, and whose entries are
-- proper.
pub record IsRegistered (r : RailRegistry) : Type 0 where
  pub active : (e : RailEntry) × (active_entry r ≡ some e) × (e.key ≡ r.active_key) × Proper e
  pub listed :
      (k : String)
      → contains k r.order ≡ true
      → (e : RailEntry) × (get r.entries k ≡ some e) × (e.key ≡ k) × Proper e
  pub distinct : Distinct r.order

listed_entry :
    (es : List RailEntry) (k : String)
    → All Proper es
    → contains k (keys_of es) ≡ true
    → (e : RailEntry) × (get (by_key es []) k ≡ some e) × (e.key ≡ k) × Proper e
unfolding Found
listed_entry es k proper h = elim (get-by_key es [] k) [
  | inl (e, (m, is), g) ↦ (e, g, is, All-Among Proper es e proper m)
  | inr (out, g) ↦ absurd (cc (out, h))
]

rail_registry-IsRegistered :
    (es : List RailEntry) (active : String) (r : RailRegistry)
    → Sound es
    → rail_registry es active ≡ ok r
    → IsRegistered r
unfolding rail_registry Sound active_entry
rail_registry-IsRegistered [] active r s e = absurd (cc e)
rail_registry-IsRegistered (x ∷ xs) active r (proper, distinct) e =
    elim (Bool-cases (contains active (keys_of (x ∷ xs)))) [
      | inr out ↦ absurd (cc (rw out at e))
      | inl there ↦
          let made : RailRegistry = record {
            entries = by_key (x ∷ xs) [];
            order = keys_of (x ∷ xs);
            active_key = active;
          } in
          let p : made ≡ r = cc (rw there at e) in
          subst IsRegistered p (record {
            active = listed_entry (x ∷ xs) active proper there;
            listed = λ k. listed_entry (x ∷ xs) k proper;
            distinct = distinct;
          })
    ]

module _ (norm lower : String → String) (env : Environ) (cfg : NodeConfig) where
  single_rail-IsRegistered :
      (r : RailRegistry) → single_rail norm lower env cfg ≡ ok r → IsRegistered r
  unfolding single_rail Sound Distinct contains
  single_rail-IsRegistered r e =
      let key = norm cfg.settlement in
      elim (Bool-cases (contains key known_rail_names)) [
        | inr strange ↦ absurd (cc (rw (strange, single_rail) at e))
        | inl known ↦ elim (Result-cases (make_adapter_for_key norm lower env cfg key false)) [
          | inr (x, failed) ↦ absurd (cc (rw (known, failed, single_rail) at e))
          | inl (a, made) ↦
              let p : Proper (entry_of key a (meta_from_adapter key a)) = record {
                known = known;
                same_id = refl;
                honest = λ h.
                    absurd (cc ((make_adapter-Honest norm lower env cfg key false a made h).0));
              } in
              rail_registry-IsRegistered (entry_of key a (meta_from_adapter key a) ∷ []) key r
                ((p, tt), (refl, tt)) (rw (known, made, single_rail) at e)
        ]
      ]

  registry_of-IsRegistered :
      (es : List RailEntry) (r : RailRegistry)
      → Sound es
      → registry_of norm lower env cfg es ≡ ok r
      → IsRegistered r
  registry_of-IsRegistered [] r s e = absurd (cc e)
  registry_of-IsRegistered (x ∷ xs) r s e = rail_registry-IsRegistered (x ∷ xs) _ r s e

  registry_from-IsRegistered :
      (keys : List String) (r : RailRegistry)
      → registry_from norm lower env cfg (collect norm lower env cfg keys []) ≡ ok r
      → IsRegistered r
  unfolding Sound Distinct
  registry_from-IsRegistered keys r e = elim (Result-cases (collect norm lower env cfg keys [])) [
    | inr (x, f) ↦ absurd (cc (rw f at e))
    | inl (es, f) ↦
        registry_of-IsRegistered es r (collect-Sound norm lower env cfg keys [] es (tt, tt) f)
          (rw f at e)
  ]

  from_keys-IsRegistered :
      (keys : List String) (r : RailRegistry)
      → build_from norm lower env cfg keys ≡ ok r
      → IsRegistered r
  unfolding build_from
  from_keys-IsRegistered [] r e = single_rail-IsRegistered r e
  from_keys-IsRegistered (k ∷ ks) r e = registry_from-IsRegistered (k ∷ ks) r e

  -- When `build_rail_registry` returns a registry: its active adapter is there, under the active key;
  -- no key is listed twice; and every listed key leads to its own entry, under one of the known
  -- names, with the id of its manifest block, which announces an adapter over a gateway in memory as
  -- "dev".
  pub build_rail_registry-IsRegistered :
      (r : RailRegistry) → build_rail_registry norm lower env cfg ≡ ok r → IsRegistered r
  unfolding build_rail_registry
  build_rail_registry-IsRegistered r e = from_keys-IsRegistered cfg.settlement_rails r e
