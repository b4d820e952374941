-- ===== src/Blobs.antt =====
-- `InMemoryBlobStore` and `SQLiteBlobStore` of novapanda/blobs.py: deliverables under the hash of their
-- content. A row's `exchange_id` is never read, and `json.loads` undoes `json.dumps`.
pub mod Addressed
use novapanda.Base.{String, Bool, Option, none, some, List, [], ◌∷◌, if◌then◌else◌}
use novapanda.Base.Dict.{Dict, get, put, has}
use novapanda.Base.Exec.{Result, ok, err}
use novapanda.Canonical.Value.{Json}
use novapanda.Host.Params.{Host}
use novapanda.Host.Hashing.{CodeError, result_hash_of_json}

-- `KeyError`
pub data BlobError : Type 0 where
  unknown_ref : BlobError

pub data BlobKind : Type 0 where
  in_memory in_table : BlobKind

-- What a `put` under a ref writes: `_data[ref] = content`, or `INSERT OR IGNORE`.
unfoldable pub write_blob : BlobKind → String → Json → Dict Json → Dict Json
write_blob in_memory ref content s = put s ref content
write_blob in_table ref content s = if has s ref then s else put s ref content

unfoldable pub put_blob : Host → BlobKind → Json → Dict Json → Result CodeError String × Dict Json
put_blob h kind content s = elim (result_hash_of_json h content) [
  | err e ↦ (err e, s)
  | ok ref ↦ (ok ref, write_blob kind ref content s)
]

unfoldable pub get_blob : String → Dict Json → Result BlobError Json
get_blob ref s = elim (get s ref) [ none ↦ err unknown_ref | some v ↦ ok v ]

abbrev pub has_blob : String → Dict Json → Bool
has_blob ref s = has s ref

-- The store after some puts.
unfoldable pub put_all : Host → BlobKind → List Json → Dict Json → Dict Json
put_all h kind [] s = s
put_all h kind (v ∷ vs) s = put_all h kind vs (put_blob h kind v s).1
