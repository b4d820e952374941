-- ===== src/Exchange/Deliverables/Held.antt =====
-- Where a deliverable is held, in the exchange or in the blob store, `_load_deliverable` finds it.
use text.Mathlib.TextLemmas.{cons-append}
use novapanda.Base.{
  ℕ, String, true, false, ◌≡◌, refl, sym, ap, ◌∙◌, Option, some, ◌==◌, arith, inl, inr, is_some,
  Bool-cases, eq_iff,
}
use novapanda.Base.Dict.{Dict, get, has}
use novapanda.Base.Exec.{ok, modify, ◌>>=◌}
use novapanda.Base.Exec.Keeps.{Keeps}
use novapanda.Blobs.{get_blob}
use novapanda.Canonical.Value.{Json, null}
use novapanda.Canonical.Text.{◌⋅◌}
use novapanda.Exchange.Deliverables.{
  inline_ref, starts_with, is_stored_ref, is_null, load_ref, load_deliverable,
}
use novapanda.Exchange.Engine.{
  Env, Focus, update, transition, assert_transition, set_deadline, save_exchange, or_text,
}
use novapanda.Host.Params.{Host}
use novapanda.Host.Hashing.{result_hash_of_json, canonical_bytes, >>=-ok}
use novapanda.StateMachine.{State}
use novapanda.Vdc.Document.{Vdc}

inline_not_stored : (i : String) → is_stored_ref (inline_ref i) ≡ false
unfolding is_stored_ref starts_with inline_ref
inline_not_stored i = rw (cons-append "i" "nline:" i) refl

starts_with-append : (t s : String) → starts_with (t ⋅ s) t ≡ true
unfolding starts_with
starts_with-append String.[] s = refl
starts_with-append (String.◌∷◌ b t) s =
    rw (cons-append b t s) (ground (arith, starts_with-append t s))

pub hash_is_stored :
    (h : Host) (d : Json) (ref : String)
    → result_hash_of_json h d ≡ ok ref
    → is_stored_ref ref ≡ true
unfolding result_hash_of_json is_stored_ref
hash_is_stored h d ref e =
    let (s, f, g) = >>=-ok (canonical_bytes h d) _ e in
    let is : "sha256:" ⋅ h.sha256 s ≡ ref = cc g in
    rw (← is) (rw (starts_with-append "sha256:" (h.sha256 s)) refl)

or_text-some : (r : String) → or_text (some r) "" ≡ r
or_text-some r = elim (Bool-cases (r == "")) [
  | inl e ↦ rw e (sym ((eq_iff r "").0 e))
  | inr e ↦ rw e refl
]

stored_not_empty : (ref : String) → is_stored_ref ref ≡ true → (ref == "") ≡ false
unfolding is_stored_ref starts_with
stored_not_empty ref h = elim (Bool-cases (ref == "")) [
  | inr e ↦ e
  | inl e ↦ absurd (cc (ap is_stored_ref (sym ((eq_iff ref "").0 e)) ∙ h))
]

module _ {S : Type 0} (env : Env S) (now : ℕ) (d : Json) where
  -- The deliverable is in the exchange, or in the blob store under the ref of the exchange.
  pub data Held (f : Focus S) : Type 0 where
    inline :
        (i : String) → f.ex.deliverable ≡ d → f.ex.deliverable_ref ≡ some (inline_ref i) → Held f
    in_blobs :
        (ref : String)
        → is_some env.blobs ≡ true
        → f.ex.deliverable ≡ null
        → f.ex.deliverable_ref ≡ some ref
        → is_stored_ref ref ≡ true
        → get f.eng.blobs ref ≡ some d
        → Held f

  pub Held-same :
      (f g : Focus S)
      → g.ex.deliverable ≡ f.ex.deliverable
      → g.ex.deliverable_ref ≡ f.ex.deliverable_ref
      → g.eng.blobs ≡ f.eng.blobs
      → Held f
      → Held g
  Held-same f g x r b (inline i e e') = inline i (x ∙ e) (r ∙ e')
  Held-same f g x r b (in_blobs ref has e e' st there) =
      in_blobs ref has (x ∙ e) (r ∙ e') st (ap (λ (t : Dict Json). get t ref) b ∙ there)

  pub Keeps-transition : (dst : State) → Keeps Held (transition env now dst)
  unfolding transition assert_transition ◌>>=◌
  Keeps-transition dst = record {
    at = λ f h. Held-same f _ (ground arith) (ground arith) (ground arith) h;
  }

  pub Keeps-set_deadline : (phase : Option String) → Keeps Held (set_deadline env now phase)
  unfolding set_deadline modify
  Keeps-set_deadline phase = record {
    at = λ f h. Held-same f _ (ground arith) (ground arith) (ground arith) h;
  }

  pub Keeps-save : Keeps Held (save_exchange {S = S})
  unfolding save_exchange modify
  Keeps-save = record { at = λ f h. Held-same f _ refl refl refl h }

  pub Keeps-fill :
      (hash : String) (v : Vdc)
      → Keeps Held (update (λ ex. record ex { result_hash = some hash; vdc = some v }))
  unfolding modify
  Keeps-fill hash v = record { at = λ f h. Held-same f _ refl refl refl h }

  load_null :
      (f : Focus S) (ref : String)
      → is_null f.ex.deliverable ≡ true
      → f.ex.deliverable_ref ≡ some ref
      → load_deliverable env f ≡ load_ref env ref f
  unfolding load_deliverable
  load_null f ref n r =
      rw (n, load_deliverable)
        (ap (λ t. load_ref env t f) (ap (λ (o : Option String). or_text o "") r ∙ or_text-some ref))

  load_inline :
      (i : String) (f : Focus S) → load_ref env (inline_ref i) f ≡ (ok f.ex.deliverable, f)
  load_inline i f = elim (Bool-cases (inline_ref i == "")) [
    | inl e ↦ rw e refl
    | inr e ↦ rw (e, inline_not_stored i) refl
  ]

  pub loads : (f : Focus S) → Held f → load_deliverable env f ≡ (ok d, f)
  unfolding load_deliverable get_blob
  loads f (inline i e r) = elim (Bool-cases (is_null f.ex.deliverable)) [
    | inl absent ↦ load_null f (inline_ref i) absent r ∙ load_inline i f ∙ ap (λ x. (ok x, f)) e
    | inr there ↦ rw (there, load_deliverable) (ap (λ x. (ok x, f)) e)
  ]
  loads f (in_blobs ref kept e r stored there) =
      load_null f ref (rw e refl) r
      ∙ rw (stored, kept, stored_not_empty ref stored, there, get_blob) refl
