-- ===== src/Blobs/Addressed.antt =====
-- What a blob store gives for a ref has that ref for its hash.
use mathlib.Core.Option.{some-injective}
use novapanda.Base.{String, ◌≡◌, some, List, [], ◌∷◌, ◌==◌, eq_iff, inl, inr, Bool-cases, arith}
use novapanda.Base.Dict.{Dict, get, put, has, get-put, get-empty}
use novapanda.Base.Exec.{ok, Result-cases}
use novapanda.Canonical.Value.{Json}
use novapanda.Host.Params.{Host}
use novapanda.Host.Hashing.{result_hash_of_json}
use novapanda.Blobs.{BlobKind, in_memory, in_table, write_blob, put_blob, get_blob, put_all}

found_blob : (ref : String) (v : Json) (s : Dict Json) → get_blob ref s ≡ ok v → get s ref ≡ some v
unfolding get_blob
found_blob ref v s e = ground (arith, e)

module _ (h : Host) where
  -- Each content stands under its hash.
  abbrev Addressed : Dict Json → Type 0
  Addressed s = (ref : String) (v : Json) → get s ref ≡ some v → result_hash_of_json h v ≡ ok ref

  Addressed-put :
      (s : Dict Json) (ref : String) (v : Json)
      → Addressed s
      → result_hash_of_json h v ≡ ok ref
      → Addressed (put s ref v)
  Addressed-put s ref v a e r w found = elim (Bool-cases (ref == r)) [
    | inl q ↦
        let same : ref ≡ r = (eq_iff ref r).0 q in
        let is : v ≡ w = some-injective v w (rw (get-put, q) at found) in rw (← is, ← same) e
    | inr q ↦ a r w (rw (get-put, q) at found)
  ]

  Addressed-write_blob :
      (kind : BlobKind) (s : Dict Json) (ref : String) (v : Json)
      → Addressed s
      → result_hash_of_json h v ≡ ok ref
      → Addressed (write_blob kind ref v s)
  unfolding write_blob
  Addressed-write_blob in_memory s ref v a e = Addressed-put s ref v a e
  Addressed-write_blob in_table s ref v a e = elim (Bool-cases (has s ref)) [
    | inl old ↦ rw old a
    | inr new ↦ rw new (Addressed-put s ref v a e)
  ]

  Addressed-put_blob :
      (kind : BlobKind) (s : Dict Json) (v : Json) → Addressed s → Addressed (put_blob h kind v s).1
  unfolding put_blob
  Addressed-put_blob kind s v a = elim (Result-cases (result_hash_of_json h v)) [
    | inl (ref, e) ↦ rw (e, put_blob) (Addressed-write_blob kind s ref v a e)
    | inr (x, e) ↦ rw (e, put_blob) a
  ]

  Addressed-put_all :
      (kind : BlobKind) (vs : List Json) (s : Dict Json)
      → Addressed s
      → Addressed (put_all h kind vs s)
  unfolding put_all
  Addressed-put_all kind [] s a = a
  Addressed-put_all kind (v ∷ vs) s a =
      Addressed-put_all kind vs (put_blob h kind v s).1 (Addressed-put_blob kind s v a)

  module _ (kind : BlobKind) (vs : List Json) (ref : String) (v : Json) where
    -- Whatever was put into a new store of either kind, what it gives for a ref is a content whose hash
    -- is that ref.
    pub get_blob-is_addressed :
        get_blob ref (put_all h kind vs []) ≡ ok v → result_hash_of_json h v ≡ ok ref
    get_blob-is_addressed e =
        Addressed-put_all kind vs [] (λ r x f. absurd (cc (f, get-empty r))) ref v
          (found_blob ref v (put_all h kind vs []) e)
