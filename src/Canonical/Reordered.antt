-- ===== src/Canonical/Reordered.antt =====
-- That the bytes of novapanda/canonical.py do not depend on the order in which a dict has its keys.
use novapanda.Base.{String, Bool, false, ◌||◌, ◌≡◌, List, [], ◌∷◌, ◌==◌, map}
use novapanda.Base.Exec.{Result, ok, err}
use novapanda.Canonical.Value.{
  Json, float, other, str, arr, obj, Items, nil, cons, Fields, done, field,
}
use novapanda.Canonical.Text.{◌⋅◌, commas}
use novapanda.Canonical.Dump.{
  CanonError, no_float, no_type, ◌>>=◌, Member, sort_members, member_text, dumps,
}

-- The same object, but for the order of the keys in its dicts.
mutual
  pub data SameJson : Json → Json → Type 0 where
    same : {v : Json} → SameJson v v
    same_arr : {xs ys : Items} → SameItems xs ys → SameJson (arr xs) (arr ys)
    same_obj : {fs gs : Fields} → SameFields fs gs → SameJson (obj fs) (obj gs)

  pub data SameItems : Items → Items → Type 0 where
    same_nil : SameItems nil nil
    same_cons :
        {v w : Json} {xs ys : Items}
        → SameJson v w
        → SameItems xs ys
        → SameItems (cons v xs) (cons w ys)

  pub data SameFields : Fields → Fields → Type 0 where
    same_done : SameFields done done
    same_field :
        {k : String} {v w : Json} {fs gs : Fields}
        → SameJson v w
        → SameFields fs gs
        → SameFields (field k v fs) (field k w gs)
    swapped :
        {j k : String} {v w : Json} {fs : Fields}
        → SameFields (field j v (field k w fs)) (field k w (field j v fs))
    then_same : {fs gs hs : Fields} → SameFields fs gs → SameFields gs hs → SameFields fs hs

module _ (nfc : String → String) where
  unfoldable pub has_key : String → Fields → Bool
  has_key q done = false
  has_key q (field k v fs) = nfc k == q || has_key q fs

  -- In each dict of the object, different keys stay different when they are normalised.
  unfoldable mutual
    pub Distinct : Json → Type 0
    Distinct (arr xs) = DistinctItems xs
    Distinct (obj fs) = DistinctFields fs
    Distinct _ = Unit

    pub DistinctItems : Items → Type 0
    DistinctItems nil = Unit
    DistinctItems (cons v xs) = Distinct v × DistinctItems xs

    pub DistinctFields : Fields → Type 0
    DistinctFields done = Unit
    DistinctFields (field k v fs) = (has_key (nfc k) fs ≡ false) × Distinct v × DistinctFields fs

  -- The text in one pass, the members being normalised and written one by one.
  unfoldable mutual
    pub text_of : Json → Result CanonError String
    text_of float = err no_float
    text_of other = err no_type
    text_of (str s) = ok (dumps (str (nfc s)))
    text_of (arr xs) = texts_of xs >>= λ ts. ok ("[" ⋅ commas ts ⋅ "]")
    text_of (obj fs) =
        members_of fs >>= λ ms. ok ("{" ⋅ commas (map member_text (sort_members ms)) ⋅ "}")
    text_of v = ok (dumps v)

    pub texts_of : Items → Result CanonError (List String)
    texts_of nil = ok []
    texts_of (cons v xs) = text_of v >>= λ t. texts_of xs >>= λ ts. ok (t ∷ ts)

    pub members_of : Fields → Result CanonError (List Member)
    members_of done = ok []
    members_of (field k v fs) = text_of v >>= λ t. members_of fs >>= λ ms. ok ((nfc k, t) ∷ ms)
