-- ===== src/SqliteStore/Lock.antt =====
-- The optimistic lock: of two writers that loaded the same version one is refused.
use novapanda.Base.{ℕ, ◌≡◌, ◌≢◌, refl, ap, false, Option, none, some, ◌==◌, arith, eq_refl, ◌∙◌}
use novapanda.Base.Dict.{get, put, get-put}
use novapanda.Base.Exec.{ok, err}
use novapanda.Exchange.Fields.{Exchange}
use novapanda.Vdc.Document.{Vdc}
use novapanda.SqliteStore.{
  Row, VdcRow, Database, Loaded, conflict, exchange_row, vdc_upsert, vdc_get, to_ex, hydrate_vdc,
  load, upsert_own, write_row, expected, matches, save,
}

exchanges-upsert_own : (ex : Exchange) (d : Database) → (upsert_own ex d).exchanges ≡ d.exchanges
unfolding upsert_own vdc_upsert
exchanges-upsert_own ex d = ground arith

exchanges-save_ok :
    (l m : Loaded) (d d' : Database)
    → save l d ≡ (ok m, d')
    → d'.exchanges ≡ put d.exchanges l.ex.exchange_id (exchange_row l.ex)
unfolding save
exchanges-save_ok l m d d' e = ground (arith, e, exchanges-upsert_own l.ex d)

-- A writer whose version is not that of the row is refused.
save-refuses :
    (l : Loaded) (d : Database) (v : ℕ) (r : Row)
    → l.pv ≡ some v
    → get d.exchanges l.ex.exchange_id ≡ some r
    → r.version ≢ v
    → ((save l d).0 ≡ err conflict) × ((save l d).1.exchanges ≡ d.exchanges)
unfolding save expected matches
save-refuses l d v r p g ne = ground (arith, p, g, ne, exchanges-upsert_own l.ex d)

-- Two writers have loaded an exchange at the same version. If one of them saves it with another
-- version, the save of the other raises `ConcurrencyError` and leaves the table of exchanges as the
-- first has written it.
pub second_writer-is_refused :
    (l m l' : Loaded) (d d' : Database) (v : ℕ)
    → l.pv ≡ some v
    → m.pv ≡ some v
    → m.ex.exchange_id ≡ l.ex.exchange_id
    → l.ex.version ≢ v
    → save l d ≡ (ok l', d')
    → ((save m d').0 ≡ err conflict) × ((save m d').1.exchanges ≡ d'.exchanges)
unfolding exchange_row
second_writer-is_refused l m l' d d' v p q same moved e =
    save-refuses m d' v (exchange_row l.ex) q
      (rw (exchanges-save_ok l l' d d' e, get-put, same, eq_refl) refl) moved

written :
    (l m : Loaded) (d d' : Database)
    → save l d ≡ (ok m, d')
    → d' ≡ write_row l.ex (upsert_own l.ex d)
unfolding save
written l m d d' e = ground (arith, e)

vdc_of : Option VdcRow → Option Vdc
vdc_of r = elim r [ none ↦ none | some r ↦ some r.vdc ]

loaded_of : Database → Option Row → Option Loaded
loaded_of d o = elim o [ none ↦ none | some r ↦ some (hydrate_vdc (to_ex r d) d) ]

module _ (y : Exchange) (v : Vdc) (d : Database) where
  abbrev with_vdc : Exchange
  with_vdc = record y { vdc = some v }

  vdc_get-write_row : vdc_get v.vdc_id (write_row with_vdc (upsert_own with_vdc d)) ≡ some v
  unfolding vdc_get upsert_own vdc_upsert vdc_of
  vdc_get-write_row =
      let found : get (put d.vdcs v.vdc_id (record { exchange_id = y.exchange_id; vdc = v }))
            v.vdc_id
          ≡ some (record { exchange_id = y.exchange_id; vdc = v }) =
        rw (get-put, eq_refl) refl in
      ap vdc_of found

  to_ex-write_row :
      (v.vdc_id == "") ≡ false
      → to_ex (exchange_row with_vdc) (write_row with_vdc (upsert_own with_vdc d))
        ≡ record { ex = with_vdc; pv = some y.version }
  unfolding to_ex exchange_row
  to_ex-write_row named = rw (named, vdc_get-write_row) refl

  load-write_row :
      (v.vdc_id == "") ≡ false
      → load y.exchange_id (write_row with_vdc (upsert_own with_vdc d))
        ≡ some (record { ex = with_vdc; pv = some y.version })
  unfolding load hydrate_vdc loaded_of
  load-write_row named =
      let table = (upsert_own with_vdc d).exchanges in
      let found : get (put table y.exchange_id (exchange_row with_vdc)) y.exchange_id
          ≡ some (exchange_row with_vdc) =
        rw (get-put, eq_refl) refl in
      ap (loaded_of (write_row with_vdc (upsert_own with_vdc d))) found
      ∙ ap (λ l. some (hydrate_vdc l (write_row with_vdc (upsert_own with_vdc d))))
          (to_ex-write_row named)

  -- What was saved, with a VDC that has an id, is what is loaded afterwards, and its version is taken
  -- for the persisted one.
  pub load-save :
      (pv : Option ℕ) (m : Loaded) (d' : Database)
      → (v.vdc_id == "") ≡ false
      → save (record { ex = record y { vdc = some v }; pv = pv }) d ≡ (ok m, d')
      → load y.exchange_id d'
        ≡ some (record { ex = record y { vdc = some v }; pv = some y.version })
  load-save pv m d' named e =
      rw (written (record { ex = with_vdc; pv = pv }) m d d' e) (load-write_row named)
