-- ===== src/Exchange/Queries/Returned.antt =====
-- What `deliver` was given is what `get_deliverable` gives.
use mathlib.Core.Path.{subst}
use novapanda.Base.{
  ℕ, String, Bool, true, false, ◌≡◌, refl, sym, ap, ◌∙◌, Option, none, some, inl, inr, Option-cases,
  eq_refl,
}
use novapanda.Base.Dict.{Dict, get, get-put}
use novapanda.Base.Exec.{Result, ok, err, gets, modify, raise_if, bind-ok, Result-cases}
use novapanda.Base.Exec.Keeps.{Keeps-bind}
use novapanda.Blobs.{BlobKind, in_memory, in_table, write_blob, put_blob}
use novapanda.Canonical.Value.{Json}
use novapanda.Exchange.Fields.{Exchange}
use novapanda.Exchange.Deliverables.{by_ref, put_deliverable, store_to, store_deliverable}
use novapanda.Exchange.Engine.{
  EngineError, code_error, vdc_error, Env, Engine, Focus, on, back, update, lift_result,
}
use novapanda.Exchange.Methods.{accept_delivery, deliver_body, deliver}
use novapanda.Exchange.Store.{Store, fetch, hydrate_vdc, hydrate_vdc-keeps}
use novapanda.Exchange.Queries.{get_deliverable}
use novapanda.Host.Params.{Identity}
use novapanda.Host.Hashing.{result_hash_of_json}
use novapanda.StateMachine.{delivered}
use novapanda.Vdc.Document.{Vdc}
use novapanda.Exchange.Deliverables.Held.{
  Held, Held-same, Keeps-transition, Keeps-set_deadline, Keeps-save, Keeps-fill, loads, inline,
  in_blobs, hash_is_stored,
}

lift_result-same :
    {S A E : Type 0} (w : E → EngineError) (r : Result E A) (f g : Focus S) (a : A)
    → lift_result w r f ≡ (ok a, g)
    → g ≡ f
lift_result-same w (ok x) f g a e = cc e
lift_result-same w (err x) f g a e = absurd (cc e)

raise_if-same : {S E : Type 0} (b : Bool) (x : E) (f g : S) → raise_if b x f ≡ (ok tt, g) → g ≡ f
unfolding raise_if
raise_if-same true x f g e = absurd (cc e)
raise_if-same false x f g e = cc e

gets-same :
    {S : Type 0} (f g : Focus S) (x : Exchange)
    → gets {E = EngineError} (λ (m : Focus S). m.ex) f ≡ (ok x, g)
    → g ≡ f
unfolding gets
gets-same f g x e = cc e

module _ {S : Type 0} (env : Env S) (now : ℕ) (d : Json) where
  -- No other document of the same hash is in the blob store.
  abbrev IsAlone : Dict Json → Type 0
  IsAlone s =
      (ref : String) (v : Json)
      → result_hash_of_json env.host d ≡ ok ref
      → get s ref ≡ some v
      → v ≡ d

  written_there :
      (kind : BlobKind) (ref : String) (s : Dict Json)
      → result_hash_of_json env.host d ≡ ok ref
      → IsAlone s
      → get (write_blob kind ref d s) ref ≡ some d
  unfolding write_blob
  written_there in_memory ref s r alone = rw (get-put, eq_refl) refl
  written_there in_table ref s r alone = elim (Option-cases (get s ref)) [
    | inl fresh ↦ rw (fresh, write_blob) (rw (get-put, eq_refl) refl)
    | inr (v, there) ↦ rw (there, write_blob) (there ∙ ap some (alone ref v r there))
  ]

  put_deliverable-written :
      (kind : BlobKind) (f m : Focus S) (ref : String)
      → IsAlone f.eng.blobs
      → put_deliverable env kind d f ≡ (ok ref, m)
      → (result_hash_of_json env.host d ≡ ok ref) × (get m.eng.blobs ref ≡ some d)
  unfolding put_deliverable put_blob
  put_deliverable-written kind f m ref alone e =
      elim (Result-cases (result_hash_of_json env.host d)) [
        | inr (x, r) ↦ absurd (cc (rw (r, put_blob) at e))
        | inl (hash, r) ↦
            let q = rw (r, put_blob) at e in
            let same : hash ≡ ref = cc q in
            let blobs = ap (λ (p : Result EngineError String × Focus S). get p.1.eng.blobs ref) q in
            (
              rw (← same) r,
              sym blobs
                  ∙ ap (λ k. get (write_blob kind hash d f.eng.blobs) k) (sym same)
                  ∙ written_there kind hash f.eng.blobs r alone,
            )
      ]

  store_to-Held :
      (o : Option BlobKind) (f g : Focus S)
      → env.blobs ≡ o
      → IsAlone f.eng.blobs
      → store_to env o d f ≡ (ok tt, g)
      → Held env now d g
  unfolding modify
  store_to-Held none f g o alone e =
      let is = ap (λ (q : Result EngineError Unit × Focus S). q.1) e in
      subst (Held env now d) is (inline f.ex.exchange_id refl refl)
  store_to-Held (some kind) f g o alone e =
      let (ref, m, first, rest) =
        bind-ok (put_deliverable env kind d) (λ ref. update (by_ref env ref)) f e in
      let (hash, there) = put_deliverable-written kind f m ref alone first in
      let is = ap (λ (q : Result EngineError Unit × Focus S). q.1) rest in
      subst (Held env now d) is
        (in_blobs ref (rw o refl) refl refl (hash_is_stored env.host d ref hash) there)

  accept_delivery-Held :
      (hash : String) (v : Vdc) (f g : Focus S)
      → IsAlone f.eng.blobs
      → accept_delivery env now d hash v f ≡ (ok tt, g)
      → Held env now d g
  unfolding accept_delivery store_deliverable
  accept_delivery-Held hash v f g alone e =
      let (_, m, first, rest) = bind-ok (store_deliverable env d) _ f e in
      let kept = Keeps-bind _ _ (Keeps-fill env now d hash v) (λ _.
        Keeps-bind _ _ (Keeps-transition env now d delivered) (λ _.
          Keeps-bind _ _ (Keeps-set_deadline env now d (some "verify"))
            (λ _. Keeps-save env now d))) in
      subst (Held env now d) (ap (λ (q : Result EngineError Unit × Focus S). q.1) rest)
        (kept.at m (store_to-Held env.blobs f m refl alone first))

  -- `deliver` up to what it shares with `ingest_delivery` only looks.
  deliver_body-Held :
      (i : Identity) (level id : String) (f g : Focus S)
      → IsAlone f.eng.blobs
      → deliver_body env now i d level id f ≡ (ok tt, g)
      → Held env now d g
  unfolding deliver_body
  deliver_body-Held i level id f g alone e =
      let (x, f0, e0, k0) = bind-ok (gets (λ f. f.ex)) _ f e in
      let (_, f1, e1, k1) = bind-ok (raise_if _ _) _ f0 k0 in
      let (hash, f2, e2, k2) =
        bind-ok (lift_result code_error (result_hash_of_json env.host d)) _ f1 k1 in
      let (draft, f3, e3, k3) = bind-ok (lift_result vdc_error _) _ f2 k2 in
      let (doc, f4, e4, k4) = bind-ok (lift_result vdc_error _) _ f3 k3 in
      let same : f4 ≡ f =
        lift_result-same vdc_error _ f3 f4 doc e4
        ∙ lift_result-same vdc_error _ f2 f3 draft e3
        ∙ lift_result-same code_error _ f1 f2 hash e2
        ∙ raise_if-same _ _ f0 f1 e1
        ∙ gets-same f f0 x e0 in
      accept_delivery-Held hash doc f4 g
        (subst (λ (m : Focus S). IsAlone m.eng.blobs) (sym same) alone) k4

  hydrated :
      (s : Store) (x : Exchange)
      → ((hydrate_vdc s x).deliverable ≡ x.deliverable)
        × ((hydrate_vdc s x).deliverable_ref ≡ x.deliverable_ref)
  hydrated s x =
      let (v, e) = hydrate_vdc-keeps s x in
      (ap (λ (y : Exchange). y.deliverable) e, ap (λ (y : Exchange). y.deliverable_ref) e)

  kept_at :
      (k : String) (f : Focus S)
      → Held env now d f
      → (get_deliverable env k (back k (ok tt, f)).1).0 ≡ ok d
  unfolding get_deliverable on fetch
  kept_at k f h =
      let t = (back k (ok tt, f)).1 in
      let there : get t.store.exchanges k ≡ some f.ex = rw get-put (rw eq_refl refl) in
      let (x, r) = hydrated t.store f.ex in
      let again : Focus S = record { ex = hydrate_vdc t.store f.ex; eng = t } in
      rw (there, on)
        (ap (λ q. q.0) (loads env now d again (Held-same env now d f again x r refl h)))

  delivered_at :
      (k : String) (f : Focus S) (i : Identity) (level id : String) (t : Engine S)
      → IsAlone f.eng.blobs
      → back k (deliver_body env now i d level id f) ≡ (ok tt, t)
      → (get_deliverable env k t).0 ≡ ok d
  delivered_at k f i level id t alone e =
      let p = deliver_body env now i d level id f in
      let returns = ap (λ (q : Result EngineError Unit × Engine S). q.0) e in
      let ends : p ≡ (ok tt, p.1) = ap (λ r. (r, p.1)) returns in
      subst (λ u. (get_deliverable env k u).0 ≡ ok d)
        (ap (λ (q : Result EngineError Unit × Engine S). q.1) e)
        (kept_at k p.1 (deliver_body-Held i level id f p.1 alone ends))

  -- When deliver returns, get_deliverable gives the deliverable back, whether the engine keeps deliverables
  -- in the exchange or in a blob store of either kind, as long as no other document of the same hash is in
  -- the blob store.
  pub deliver-get_deliverable :
      (k : String) (i : Identity) (level id : String) (s t : Engine S)
      → ((ref : String) (v : Json)
          → result_hash_of_json env.host d ≡ ok ref
          → get s.blobs ref ≡ some v
          → v ≡ d)
      → deliver env now k i d level id s ≡ (ok tt, t)
      → (get_deliverable env k t).0 ≡ ok d
  unfolding deliver on fetch
  deliver-get_deliverable k i level id s t alone e = elim (Option-cases (get s.store.exchanges k)) [
    | inl absent ↦ absurd (cc (rw (absent, on) at e))
    | inr (x, there) ↦
        delivered_at k (record { ex = hydrate_vdc s.store x; eng = s }) i level id t alone
          (rw (there, on) at e)
  ]
