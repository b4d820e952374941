-- ===== src/SqliteStore.antt =====
-- `SQLiteStore` of novapanda/store.py: the tables of exchanges, idempotency keys and VDCs, and the
-- optimistic lock. A table is a dict by its primary key; `json.dumps` and `json.loads` of a row's data
-- are undone by each other, so a row holds the data itself.
pub mod Lock
use novapanda.Base.{
  ℕ, zero, suc, String, Bool, true, false, not, ◌&&◌, Option, none, some, List, [], ◌∷◌, ◌==◌, eqb,
  is_some, if◌then◌else◌,
}
use novapanda.Base.Dict.{Dict, get, put, has, values}
use novapanda.Base.Exec.{Result, ok, err}
use novapanda.Canonical.Text.{before}
use novapanda.Exchange.Fields.{Exchange}
use novapanda.Vdc.Document.{Vdc}

-- A row of `exchanges`: the version, the data without the VDC, and the id of the VDC.
pub record Row : Type 0 where
  pub version : ℕ
  pub content : Exchange
  pub vdc_id : Option String

-- A row of `vdcs`.
pub record VdcRow : Type 0 where
  pub exchange_id : String
  pub vdc : Vdc

pub record Database : Type 0 where
  pub exchanges : Dict Row
  pub idem : Dict String
  pub vdcs : Dict VdcRow

-- An exchange in memory; `pv` is `_pv`, the version that was persisted, if it was set.
pub record Loaded : Type 0 where
  pub ex : Exchange
  pub pv : Option ℕ

-- `ConcurrencyError`, and the `IntegrityError` of an insert
pub data StoreError : Type 0 where
  conflict duplicate : StoreError

-- `_exchange_payload`, with the version beside it
unfoldable pub exchange_row : Exchange → Row
exchange_row ex = record {
  version = ex.version;
  content = record ex { vdc = none };
  vdc_id = elim ex.vdc [ none ↦ none | some v ↦ some v.vdc_id ];
}

unfoldable pub vdc_upsert : String → Vdc → Database → Database
vdc_upsert exchange_id v d = record d {
  vdcs = put d.vdcs v.vdc_id (record { exchange_id = exchange_id; vdc = v });
}

unfoldable pub vdc_get : String → Database → Option Vdc
vdc_get vdc_id d = elim (get d.vdcs vdc_id) [ none ↦ none | some r ↦ some r.vdc ]

-- The row with the greatest id among those of the exchange.
unfoldable pub last_of : String → List VdcRow → Option Vdc
last_of exchange_id [] = none
last_of exchange_id (r ∷ rs) =
    let rest = last_of exchange_id rs in
    if r.exchange_id == exchange_id
    then elim rest [
      | none ↦ some r.vdc
      | some v ↦ if before r.vdc.vdc_id v.vdc_id then some v else some r.vdc
    ]
    else rest

unfoldable pub vdc_get_by_exchange : String → Database → Option Vdc
vdc_get_by_exchange exchange_id d = last_of exchange_id (values d.vdcs)

-- `_to_ex`
unfoldable pub to_ex : Row → Database → Loaded
to_ex r d = record {
  ex = record r.content {
    vdc = elim r.vdc_id [ none ↦ none | some i ↦ if i == "" then none else vdc_get i d ];
  };
  pv = some r.content.version;
}

-- `_hydrate_vdc`
unfoldable pub hydrate_vdc : Loaded → Database → Loaded
hydrate_vdc l d = elim l.ex.vdc [
  | some v ↦ l
  | none ↦ record l { ex = record l.ex { vdc = vdc_get_by_exchange l.ex.exchange_id d } }
]

unfoldable pub load : String → Database → Option Loaded
load exchange_id d = elim (get d.exchanges exchange_id) [
  | none ↦ none
  | some r ↦ some (hydrate_vdc (to_ex r d) d)
]

-- `if ex.vdc: self.vdc_upsert(…)`, which commits by itself
unfoldable pub upsert_own : Exchange → Database → Database
upsert_own ex d = elim ex.vdc [ none ↦ d | some v ↦ vdc_upsert ex.exchange_id v d ]

abbrev pub write_row : Exchange → Database → Database
write_row ex d = record d { exchanges = put d.exchanges ex.exchange_id (exchange_row ex) }

unfoldable pub add : Loaded → Database → Result StoreError Loaded × Database
add l d =
    let d' = upsert_own l.ex d in
    if has d'.exchanges l.ex.exchange_id
    then (err duplicate, d')
    else (ok (record l { pv = some l.ex.version }), write_row l.ex d')

-- `getattr(ex, "_pv", ex.version - 1)`; below zero there is no version
unfoldable pub expected : Loaded → Option ℕ
expected l = elim l.pv [
  | some v ↦ some v
  | none ↦ elim l.ex.version [ zero ↦ none | suc n ↦ some n ]
]

-- `WHERE id=? AND version=?`
unfoldable pub matches : Option ℕ → Option Row → Bool
matches none r = false
matches (some v) none = false
matches (some v) (some r) = eqb r.version v

unfoldable pub save : Loaded → Database → Result StoreError Loaded × Database
save l d =
    let d' = upsert_own l.ex d in
    if matches (expected l) (get d'.exchanges l.ex.exchange_id)
    then (ok (record l { pv = some l.ex.version }), write_row l.ex d')
    else (err conflict, d')

unfoldable pub idem_get : String → Database → Option String
idem_get k d = get d.idem k

unfoldable pub idem_set : String → String → Database → Database
idem_set k exchange_id d = record d { idem = put d.idem k exchange_id }
