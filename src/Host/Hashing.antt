-- ===== src/Host/Hashing.antt =====
-- novapanda/hashing.py and `canonical_cbor_bytes` of novapanda/v1/cbor_codec.py.
use novapanda.Base.{◌≡◌, refl, String, true, Option, none, some}
use novapanda.Base.Exec.{Result, ok, err}
use novapanda.Canonical.Value.{Json, bool, obj, done, field}
use novapanda.Canonical.Text.{◌⋅◌}
use novapanda.Canonical.Dump.{CanonError, canonical, normalize}
use novapanda.Host.Params.{Host}

-- `ImportError` where `cbor2` is missing, or an error of the normalisation
pub data CodeError : Type 0 where
  no_cbor : CodeError
  no_canon : CanonError → CodeError

infixl 5 ◌>>=◌
abbrev pub ◌>>=◌ :
    {A B : Type 0} → Result CodeError A → (A → Result CodeError B) → Result CodeError B
ok a >>= f = f a
err e >>= f = err e

pub >>=-ok :
    {A B : Type 0} (m : Result CodeError A) (f : A → Result CodeError B) {b : B}
    → (m >>= f) ≡ ok b
    → (a : A) × (m ≡ ok a) × (f a ≡ ok b)
>>=-ok (ok a) f e = (a, refl, e)
>>=-ok (err x) f e = cc

abbrev pub lift_canon : {A : Type 0} → Result CanonError A → Result CodeError A
lift_canon (ok a) = ok a
lift_canon (err e) = err (no_canon e)

abbrev pub or_no_cbor : Option String → Result CodeError String
or_no_cbor none = err no_cbor
or_no_cbor (some s) = ok s

module _ (h : Host) where
  abbrev pub canonical_bytes : Json → Result CodeError String
  canonical_bytes v = lift_canon (canonical h.nfc v)

  -- `canonical_cbor_bytes`: the package is tried before the object is normalised, and is then
  -- there for it
  unfoldable pub canonical_cbor_bytes : Json → Result CodeError String
  canonical_cbor_bytes v = do
    probe ← or_no_cbor (h.cbor (obj (field "ok" (bool true) done)))
    w ← lift_canon (normalize h.nfc v)
    or_no_cbor (h.cbor w)

  abbrev pub result_hash : String → String
  result_hash s = "sha256:" ⋅ h.sha256 s

  unfoldable pub result_hash_of_json : Json → Result CodeError String
  result_hash_of_json v = do s ← canonical_bytes v; ok (result_hash s)
