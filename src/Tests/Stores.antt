-- ===== src/Tests/Stores.antt =====
-- The theorems on the stores, at concrete inputs.
use novapanda.Base.{some, [], ◌∷◌, ◌≡◌, ◌≢◌, refl, arith}
use novapanda.Base.Dict.{get, put}
use novapanda.Base.Exec.{ok, err}
use novapanda.SqliteStore.{
  Database, Loaded, conflict, exchange_row, upsert_own, vdc_upsert, expected, matches, save, load,
}
use novapanda.SqliteStore.Lock.{second_writer-is_refused, load-save}
use novapanda.Canonical.Value.{str}
use novapanda.Canonical.Dump.{canonical, normalize, dumps}
use novapanda.Canonical.Text.{quoted, escape, escape_all}
use novapanda.Host.Hashing.{result_hash_of_json}
use novapanda.Blobs.{in_table, write_blob, put_blob, get_blob, put_all}
use novapanda.Blobs.Addressed.{get_blob-is_addressed}
use novapanda.Tests.Scene.{toy_host, x2, x4, x5, document}

abbrev database : Database
database = record { exchanges = ("ex", exchange_row x2) ∷ []; idem = []; vdcs = [] }

abbrev first_writer : Loaded
first_writer = record { ex = record x2 { version = 2 }; pv = some 1 }

abbrev second_writer : Loaded
second_writer = record { ex = record x2 { version = 2; escrow_handle = some "mine" }; pv = some 1 }

abbrev first_saved : Loaded
first_saved = record first_writer { pv = some 2 }

abbrev after_first : Database
after_first = record { exchanges = ("ex", exchange_row first_writer.ex) ∷ []; idem = []; vdcs = [] }

first_saves : save first_writer database ≡ (ok first_saved, after_first)
unfolding save expected matches upsert_own get put exchange_row
first_saves = refl

two-is_not_one : first_writer.ex.version ≢ 1
two-is_not_one e = omega (arith, e)

second_writer-is_refused_example :
    ((save second_writer after_first).0 ≡ err conflict)
    × ((save second_writer after_first).1.exchanges ≡ after_first.exchanges)
second_writer-is_refused_example =
    second_writer-is_refused first_writer second_writer first_saved database after_first 1 refl refl
      refl two-is_not_one first_saves

abbrev before_delivery : Database
before_delivery = record { exchanges = ("ex", exchange_row x4) ∷ []; idem = []; vdcs = [] }

abbrev delivery : Loaded
delivery = record { ex = record x5 { vdc = some document }; pv = some 3 }

abbrev after_delivery : Database
after_delivery = record {
  exchanges = ("ex", exchange_row delivery.ex) ∷ [];
  idem = [];
  vdcs = ("v", record { exchange_id = "ex"; vdc = document }) ∷ [];
}

delivery_saves :
    save delivery before_delivery ≡ (ok (record delivery { pv = some 4 }), after_delivery)
unfolding save expected matches upsert_own vdc_upsert get put exchange_row
delivery_saves = refl

load-save_example :
    load "ex" after_delivery ≡ some (record { ex = record x5 { vdc = some document }; pv = some 4 })
load-save_example =
    load-save x5 document before_delivery (some 3) (record delivery { pv = some 4 }) after_delivery
      refl delivery_saves

stored_blob :
    get_blob "sha256:h" (put_all toy_host in_table (str "result" ∷ []) []) ≡ ok (str "result")
unfolding get_blob put_blob put_all write_blob get put result_hash_of_json canonical normalize dumps
    quoted escape escape_all
stored_blob = refl

get_blob-is_addressed_example : result_hash_of_json toy_host (str "result") ≡ ok "sha256:h"
get_blob-is_addressed_example =
    get_blob-is_addressed toy_host in_table (str "result" ∷ []) "sha256:h" (str "result")
      stored_blob
