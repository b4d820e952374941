-- ===== src/Canonical/Dump.antt =====
-- `_normalize`, `json.dumps(sort_keys=True)` and `canonical_bytes` of novapanda/canonical.py.
-- `nfc` is `unicodedata.normalize("NFC", ·)`. The bytes are kept as the text that UTF-8 encodes.
use novapanda.Base.{String, ◌≡◌, refl, List, [], ◌∷◌, ◌==◌, map, if◌then◌else◌}
use novapanda.Base.Int.{negsuc}
use novapanda.Base.Exec.{Result, ok, err}
use novapanda.Canonical.Value.{
  Json, null, float, other, bool, int, str, arr, obj, Items, nil, cons, Fields, done, field,
}
use novapanda.Canonical.Text.{◌⋅◌, int_text, quoted, commas, before}

-- `ValueError` on a float, `TypeError` on an object that JSON has no form for.
pub data CanonError : Type 0 where
  no_float no_type : CanonError

infixl 5 ◌>>=◌
abbrev pub ◌>>=◌ :
    {A B : Type 0} → Result CanonError A → (A → Result CanonError B) → Result CanonError B
ok a >>= f = f a
err e >>= f = err e

-- `out[k] = v`: a key that is there keeps its place
unfoldable pub set_field : Fields → String → Json → Fields
set_field done k v = field k v done
set_field (field j w fs) k v = if j == k then field k v fs else field j w (set_field fs k v)

module _ (nfc : String → String) where
  unfoldable mutual
    unfolding set_field

    pub normalize : Json → Result CanonError Json
    normalize null = ok null
    normalize float = err no_float
    normalize other = err no_type
    normalize (bool b) = ok (bool b)
    normalize (int z) = ok (int z)
    normalize (str s) = ok (str (nfc s))
    normalize (arr xs) = normalize_items xs >>= λ ys. ok (arr ys)
    normalize (obj fs) = normalize_fields fs done >>= λ gs. ok (obj gs)

    pub normalize_items : Items → Result CanonError Items
    normalize_items nil = ok nil
    normalize_items (cons v xs) = normalize v >>= λ w. normalize_items xs >>= λ ys. ok (cons w ys)

    -- the loop over `obj.items()`, with the dict built so far
    pub normalize_fields : Fields → Fields → Result CanonError Fields
    normalize_fields done out = ok out
    normalize_fields (field k v fs) out =
        normalize v >>= λ w. normalize_fields fs (set_field out (nfc k) w)

-- A key and the text of its member.
abbrev pub Member : Type 0
Member = String × String

unfoldable pub insert_member : Member → List Member → List Member
insert_member m [] = m ∷ []
insert_member m (n ∷ ns) = if before n.0 m.0 then n ∷ insert_member m ns else m ∷ n ∷ ns

-- Sorted by key. Keys of a dict are distinct, so no two members compare equal.
unfoldable pub sort_members : List Member → List Member
unfolding insert_member
sort_members [] = []
sort_members (m ∷ ms) = insert_member m (sort_members ms)

abbrev pub member_text : Member → String
member_text (k, v) = quoted k ⋅ ":" ⋅ v

unfoldable mutual
  unfolding sort_members quoted int_text commas

  pub dumps : Json → String
  dumps null = "null"
  dumps float = ""
  dumps other = ""
  dumps (bool b) = if b then "true" else "false"
  dumps (int z) = int_text z
  dumps (str s) = quoted s
  dumps (arr xs) = "[" ⋅ commas (item_texts xs) ⋅ "]"
  dumps (obj fs) = "{" ⋅ commas (map member_text (sort_members (members fs))) ⋅ "}"

  pub item_texts : Items → List String
  item_texts nil = []
  item_texts (cons v xs) = dumps v ∷ item_texts xs

  pub members : Fields → List Member
  members done = []
  members (field k v fs) = (k, dumps v) ∷ members fs

-- `canonical_str`, and `canonical_bytes` as text
unfoldable pub canonical : (String → String) → Json → Result CanonError String
unfolding normalize dumps
canonical nfc v = normalize nfc v >>= λ w. ok (dumps w)

sorted_and_escaped :
    canonical (λ s. s) (obj (field "b" (int (negsuc 41)) (field "a" (str "x\"\n") done)))
    ≡ ok "{\"a\":\"x\\\"\\n\",\"b\":-42}"
unfolding canonical before
sorted_and_escaped = refl
