-- ===== src/Exchange/Deliverables.antt =====
-- `_store_deliverable` and `_load_deliverable` of `ExchangeEngine`, in novapanda/exchange.py, with
-- `inline_ref` and `is_stored_ref` of novapanda/blobs.py.
pub mod Held
use Prim.Native.Char.{Char, code}
use novapanda.Base.{
  String, Bool, true, false, not, ◌&&◌, ◌||◌, Option, none, some, ◌==◌, eqb, is_some, if◌then◌else◌,
  ◌≡◌, inl, inr, refl, Bool-cases,
}
use novapanda.Base.Exec.{Result, ok, err, modify, continue, ◌>>=◌, ◌>>◌}
use novapanda.Blobs.{BlobKind, put_blob, get_blob}
use novapanda.Canonical.Value.{Json, null}
use novapanda.Canonical.Text.{◌⋅◌}
use novapanda.Exchange.Fields.{Exchange}
use novapanda.Exchange.Engine.{
  EngineError, code_error, blob_error, Env, Focus, On, update, lift_result, or_text,
}

unfoldable pub inline_ref : String → String
inline_ref exchange_id = "inline:" ⋅ exchange_id

-- `s.startswith(t)`
unfoldable pub starts_with : String → String → Bool
starts_with s String.[] = true
starts_with String.[] (String.◌∷◌ b t) = false
starts_with (String.◌∷◌ a s) (String.◌∷◌ b t) = eqb (code a) (code b) && starts_with s t

unfoldable pub is_stored_ref : String → Bool
unfolding starts_with
is_stored_ref ref = starts_with ref "sha256:" || starts_with ref "blob:"

-- `deliverable is None`
abbrev pub is_null : Json → Bool
is_null null = true
is_null _ = false

module _ {S : Type 0} (env : Env S) where
  -- `self._blobs.put`
  unfoldable pub put_deliverable : BlobKind → Json → On S String
  put_deliverable kind deliverable f =
      let (r, blobs) = put_blob env.host kind deliverable f.eng.blobs in
      lift_result code_error r (record f { eng = record f.eng { blobs = blobs } })

  abbrev pub by_ref : String → Exchange → Exchange
  by_ref ref ex = record ex { deliverable = null; deliverable_ref = some ref }

  abbrev pub store_to : Option BlobKind → Json → On S Unit
  store_to none deliverable = update (λ ex. record ex {
    deliverable = deliverable;
    deliverable_ref = some (inline_ref ex.exchange_id);
  })
  store_to (some kind) deliverable = do ref ← put_deliverable kind deliverable; update (by_ref ref)

  unfoldable pub store_deliverable : Json → On S Unit
  store_deliverable deliverable = store_to env.blobs deliverable

  abbrev pub load_ref : String → On S Json
  load_ref ref f =
      if not (ref == "") && (is_stored_ref ref && is_some env.blobs)
      then lift_result blob_error (get_blob ref f.eng.blobs) f
      else (ok f.ex.deliverable, f)

  unfoldable pub load_deliverable : On S Json
  load_deliverable f =
      if is_null f.ex.deliverable
      then load_ref (or_text f.ex.deliverable_ref "") f
      else (ok f.ex.deliverable, f)

  lift_result-looks :
      {A E : Type 0} (wrap : E → EngineError) (r : Result E A) (f : Focus S)
      → (lift_result wrap r f).1 ≡ f
  lift_result-looks wrap (ok a) f = refl
  lift_result-looks wrap (err e) f = refl

  load_ref-looks : (ref : String) (f : Focus S) → (load_ref ref f).1 ≡ f
  load_ref-looks ref f =
      elim (Bool-cases (not (ref == "") && (is_stored_ref ref && is_some env.blobs))) [
        | inl stored ↦ rw stored (lift_result-looks blob_error (get_blob ref f.eng.blobs) f)
        | inr given ↦ rw given refl
      ]

  -- To load a deliverable changes nothing.
  pub load_deliverable-looks : (f : Focus S) → (load_deliverable f).1 ≡ f
  unfolding load_deliverable
  load_deliverable-looks f = elim (Bool-cases (is_null f.ex.deliverable)) [
    | inl absent ↦ rw (absent, load_deliverable) (load_ref-looks _ f)
    | inr there ↦ rw (there, load_deliverable) refl
  ]
