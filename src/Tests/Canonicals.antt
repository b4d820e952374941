-- ===== src/Tests/Canonicals.antt =====
-- The theorems on the canonical encoding, at concrete inputs.
use novapanda.Base.{String, ◌≡◌, refl}
use novapanda.Base.Int.{pos}
use novapanda.Base.Exec.{ok}
use novapanda.Canonical.Value.{Json, int, str, arr, obj, nil, cons, done, field}
use novapanda.Canonical.Text.{digit, decimal, int_text, escape, escape_all, quoted, commas, before}
use novapanda.Canonical.Dump.{
  normalize, normalize_items, normalize_fields, set_field, insert_member, sort_members, canonical,
  dumps, item_texts, members,
}
use novapanda.Canonical.Reordered.{
  SameJson, same_arr, same_obj, same_cons, same_nil, same, same_done, same_field, swapped,
  then_same, Distinct, DistinctItems, DistinctFields, has_key,
}
use novapanda.Canonical.Independent.{canonical-SameJson}
use novapanda.Base.{contains}

abbrev as_is : String → String
as_is s = s

-- {"unit": "USD", "steps": [{"b": 1, "a": 2}]}, and the same with both dicts the other way round
abbrev offer : Json
offer = obj (
    field "unit" (str "USD") (
      field "steps" (arr (cons (obj (field "b" (int (pos 1)) (field "a" (int (pos 2)) done))) nil))
        done))

abbrev other_way : Json
other_way = obj (
    field "steps" (arr (cons (obj (field "a" (int (pos 2)) (field "b" (int (pos 1)) done))) nil))
      (field "unit" (str "USD") done))

same_offer : SameJson offer other_way
same_offer = same_obj (
    then_same
      (same_field same (same_field (same_arr (same_cons (same_obj swapped) same_nil)) same_done))
      swapped)

offer-Distinct : Distinct as_is offer
unfolding Distinct DistinctItems DistinctFields has_key
offer-Distinct = (refl, tt, (refl, ((refl, tt, (refl, tt, tt)), tt), tt))

offer_text : canonical as_is offer ≡ ok "{\"steps\":[{\"a\":2,\"b\":1}],\"unit\":\"USD\"}"
unfolding canonical normalize normalize_items normalize_fields set_field dumps item_texts members
    insert_member sort_members digit decimal int_text escape escape_all quoted commas before
    contains
offer_text = refl

canonical-SameJson_example :
    canonical as_is other_way ≡ ok "{\"steps\":[{\"a\":2,\"b\":1}],\"unit\":\"USD\"}"
canonical-SameJson_example =
    canonical-SameJson as_is offer other_way "{\"steps\":[{\"a\":2,\"b\":1}],\"unit\":\"USD\"}"
      same_offer offer-Distinct offer_text
