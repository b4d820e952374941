-- ===== src/Canonical/Written.antt =====
-- That `canonical_bytes` of novapanda/canonical.py can normalise and write in one pass.
use mathlib.Core.List.{append_assoc, append-nil}
use novapanda.Base.{
  String, Bool, true, false, ◌||◌, ◌≡◌, refl, sym, ap, ◌∙◌, List, [], ◌∷◌, ◌++◌, ◌==◌, map, arith,
  eq_iff, Bool-cases, inl, inr,
}
use novapanda.Base.Exec.{Result, ok, err}
use novapanda.Canonical.Value.{
  Json, null, float, other, bool, int, str, arr, obj, Items, nil, cons, Fields, done, field,
}
use novapanda.Canonical.Text.{◌⋅◌, commas}
use novapanda.Canonical.Dump.{
  CanonError, ◌>>=◌, set_field, normalize, normalize_items, normalize_fields, Member, sort_members,
  member_text, dumps, item_texts, members,
}
use novapanda.Canonical.Reordered.{
  has_key, Distinct, DistinctItems, DistinctFields, text_of, texts_of, members_of,
}

module _ (nfc : String → String) where
  -- a key of the dict built so far
  unfoldable known_key : String → Fields → Bool
  known_key q done = false
  known_key q (field k v fs) = k == q || known_key q fs

  members-set_field :
      (out : Fields) (k : String) (w : Json)
      → known_key k out ≡ false
      → members (set_field out k w) ≡ members out ++ (k, dumps w) ∷ []
  unfolding members set_field known_key
  members-set_field done k w h = refl
  members-set_field (field j v fs) k w h = elim (Bool-cases (j == k)) [
    | inl q ↦ absurd (cc (rw q at h))
    | inr q ↦ rw q (ap (λ ms. (j, dumps v) ∷ ms) (members-set_field fs k w (rw q at h)))
  ]

  known_key-set_field :
      (out : Fields) (q k : String) (w : Json)
      → known_key q (set_field out k w) ≡ (k == q || known_key q out)
  unfolding set_field known_key
  known_key-set_field done q k w = refl
  known_key-set_field (field j v fs) q k w =
      ground (arith, eq_iff j k, known_key-set_field fs q k w)

  bind_again :
      {A B C : Type 0} (r : Result CanonError A) (f : A → B) (g : B → C)
      → ((r >>= λ a. ok (f a)) >>= λ b. ok (g b)) ≡ (r >>= λ a. ok (g (f a)))
  bind_again (ok a) f g = refl
  bind_again (err e) f g = refl

  bind_same : {A : Type 0} (r : Result CanonError A) → (r >>= λ a. ok a) ≡ r
  bind_same (ok a) = refl
  bind_same (err e) = refl

  -- Normalising and then writing is writing in one pass.
  written_as :
      {A B C : Type 0} (r : Result CanonError A) (s : Result CanonError B) (f : A → B) (g : B → C)
      → (r >>= λ a. ok (f a)) ≡ s
      → (r >>= λ a. ok (g (f a))) ≡ (s >>= λ b. ok (g b))
  written_as (ok a) s f g h = rw (← h) refl
  written_as (err e) s f g h = rw (← h) refl

  Apart : Fields → Fields → Type 0
  Apart fs out = (q : String) → has_key nfc q fs ≡ true → known_key q out ≡ false

  Apart-head :
      (k : String) (v : Json) (fs out : Fields)
      → Apart (field k v fs) out
      → known_key (nfc k) out ≡ false
  unfolding Apart has_key
  Apart-head k v fs out h = h (nfc k) (ground (arith, eq_iff (nfc k) (nfc k)))

  Apart-tail :
      (k : String) (v w : Json) (fs out : Fields)
      → has_key nfc (nfc k) fs ≡ false
      → Apart (field k v fs) out
      → Apart fs (set_field out (nfc k) w)
  unfolding Apart has_key
  Apart-tail k v w fs out new h q e = elim (Bool-cases (nfc k == q)) [
    | inl is ↦ absurd (cc (new, e, (eq_iff (nfc k) q).0 is))
    | inr no' ↦ rw (known_key-set_field, no') (h q (ground (arith, e)))
  ]

  joined :
      (k t : String) (out : List Member) (r : Result CanonError (List Member))
      → (r >>= λ ms. ok ((out ++ (k, t) ∷ []) ++ ms))
        ≡ ((r >>= λ ms. ok ((k, t) ∷ ms)) >>= λ ms. ok (out ++ ms))
  joined k t out (ok ms) = ap ok (append_assoc out ((k, t) ∷ []) ms)
  joined k t out (err e) = refl

  nothing_known : (fs : Fields) → Apart fs done
  unfolding Apart known_key
  nothing_known fs q h = refl

  items_step :
      (r : Result CanonError Json) (s : Result CanonError String) (ys : Result CanonError Items)
      (ts : Result CanonError (List String))
      → (r >>= λ w. ok (dumps w)) ≡ s
      → (ys >>= λ y. ok (item_texts y)) ≡ ts
      → ((r >>= λ w. (ys >>= λ y. ok (cons w y))) >>= λ y. ok (item_texts y))
        ≡ (s >>= λ t. ts >>= λ u. ok (t ∷ u))
  unfolding item_texts
  items_step (err e) s ys ts h h' = rw (← h) refl
  items_step (ok w) s (err e) ts h h' = rw (← h, ← h') refl
  items_step (ok w) s (ok y) ts h h' = rw (← h, ← h') refl

  fields_step :
      (r : Result CanonError Json) (s : Result CanonError String)
      (rest : Json → Result CanonError Fields) (ms : Result CanonError (List Member)) (k : String)
      (out : List Member)
      → (r >>= λ w. ok (dumps w)) ≡ s
      → ((w : Json)
          → (rest w >>= λ gs. ok (members gs)) ≡ (ms >>= λ m. ok ((out ++ (k, dumps w) ∷ []) ++ m)))
      → ((r >>= rest) >>= λ gs. ok (members gs))
        ≡ ((s >>= λ t. (ms >>= λ m. ok ((k, t) ∷ m))) >>= λ m. ok (out ++ m))
  fields_step (err e) s rest ms k out h h' = rw (← h) refl
  fields_step (ok w) s rest ms k out h h' = rw (← h) (h' w ∙ joined k (dumps w) out ms)

  mutual
    unfolding normalize dumps members text_of Distinct

    pub written :
        (v : Json) → Distinct nfc v → (normalize nfc v >>= λ w. ok (dumps w)) ≡ text_of nfc v
    written null d = refl
    written float d = refl
    written other d = refl
    written (bool b) d = refl
    written (int z) d = refl
    written (str s) d = refl
    written (arr xs) d =
        bind_again (normalize_items nfc xs) arr dumps
        ∙ written_as (normalize_items nfc xs) (texts_of nfc xs) item_texts
            (λ ts. "[" ⋅ commas ts ⋅ "]") (written_items xs d)
    written (obj fs) d =
        bind_again (normalize_fields nfc fs done) obj dumps
        ∙ written_as (normalize_fields nfc fs done) (members_of nfc fs) members
            (λ ms. "{" ⋅ commas (map member_text (sort_members ms)) ⋅ "}")
            (written_fields fs done d (nothing_known fs) ∙ bind_same (members_of nfc fs))

    written_items :
        (xs : Items)
        → DistinctItems nfc xs
        → (normalize_items nfc xs >>= λ ys. ok (item_texts ys)) ≡ texts_of nfc xs
    written_items nil d = refl
    written_items (cons v xs) d =
        items_step (normalize nfc v) (text_of nfc v) (normalize_items nfc xs) (texts_of nfc xs)
          (written v d.0) (written_items xs d.1)

    written_fields :
        (fs out : Fields)
        → DistinctFields nfc fs
        → Apart fs out
        → (normalize_fields nfc fs out >>= λ gs. ok (members gs))
          ≡ (members_of nfc fs >>= λ ms. ok (members out ++ ms))
    written_fields done out d a = ap ok (sym (append-nil (members out)))
    written_fields (field k v fs) out (new, d, ds) a =
        fields_step (normalize nfc v) (text_of nfc v)
          (λ w. normalize_fields nfc fs (set_field out (nfc k) w)) (members_of nfc fs) (nfc k)
          (members out) (written v d)
          (λ w.
            written_fields fs (set_field out (nfc k) w) ds (Apart-tail k v w fs out new a)
            ∙ ap (λ o. members_of nfc fs >>= λ m. ok (o ++ m))
                (members-set_field out (nfc k) w (Apart-head k v fs out a)))
