-- ===== src/Exchange/Store.antt =====
-- `InMemoryStore` of novapanda/store.py. The store hands out the object that it holds, so a change
-- of an exchange is a change of the store; the engine writes it back under its key.
use novapanda.Base.{◌≡◌, arith, String, Option, none, some, [], ◌==◌, if◌then◌else◌}
use novapanda.Base.Dict.{Dict, get, put}
use novapanda.Exchange.Fields.{Exchange}
use novapanda.Vdc.Document.{Vdc}

pub record Store : Type 0 where
  pub exchanges : Dict Exchange
  pub idem : Dict String
  pub vdcs : Dict Vdc
  pub vdc_by_ex : Dict String

abbrev pub empty_store : Store
empty_store = record { exchanges = []; idem = []; vdcs = []; vdc_by_ex = [] }

unfoldable pub vdc_upsert : String → Vdc → Store → Store
vdc_upsert exchange_id v s = record s {
  vdcs = put s.vdcs v.vdc_id v;
  vdc_by_ex = put s.vdc_by_ex exchange_id v.vdc_id;
}

unfoldable pub vdc_get_by_exchange : String → Store → Option Vdc
vdc_get_by_exchange exchange_id s = elim (get s.vdc_by_ex exchange_id) [
  | none ↦ none
  | some vid ↦ if vid == "" then none else get s.vdcs vid
]

-- `_hydrate_vdc`
unfoldable pub hydrate_vdc : Store → Exchange → Exchange
unfolding vdc_get_by_exchange
hydrate_vdc s ex = elim ex.vdc [
  | some v ↦ ex
  | none ↦ elim (vdc_get_by_exchange ex.exchange_id s) [
    | none ↦ ex
    | some v ↦ record ex { vdc = some v }
  ]
]

abbrev upsert_own : Exchange → Store → Store
upsert_own ex s = elim ex.vdc [ none ↦ s | some v ↦ vdc_upsert ex.exchange_id v s ]

abbrev pub keep : String → Exchange → Store → Store
keep k ex s = record s { exchanges = put s.exchanges k ex }

-- `save`; `add` of this store does the same
unfoldable pub save : Exchange → Store → Store
unfolding vdc_upsert
save ex s = keep ex.exchange_id ex (upsert_own ex s)

-- `get`, which gives the exchange with its VDC
unfoldable pub fetch : String → Store → Option Exchange
unfolding hydrate_vdc
fetch exchange_id s = elim (get s.exchanges exchange_id) [
  | none ↦ none
  | some ex ↦ some (hydrate_vdc s ex)
]

abbrev pub idem_set : String → String → Store → Store
idem_set key exchange_id s = record s { idem = put s.idem key exchange_id }

pub exchanges-save :
    (ex : Exchange) (s : Store) → (save ex s).exchanges ≡ put s.exchanges ex.exchange_id ex
unfolding save
exchanges-save ex s = ground arith

pub idem-save : (ex : Exchange) (s : Store) → (save ex s).idem ≡ s.idem
unfolding save
idem-save ex s = ground arith

-- Hydration only fills in a VDC that was missing.
pub hydrate_vdc-keeps :
    (s : Store) (ex : Exchange) → (v : Option Vdc) × (hydrate_vdc s ex ≡ record ex { vdc = v })
unfolding hydrate_vdc
hydrate_vdc-keeps s ex = ((hydrate_vdc s ex).vdc, ground arith)
