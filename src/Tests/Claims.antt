-- ===== src/Tests/Claims.antt =====
-- The theorems on the claims, at concrete inputs.
use mathlib.Core.Option.{some-injective}
use novapanda.Base.{String, Option, none, some, List, [], ◌∷◌, ◌≡◌, refl, sym, ap}
use novapanda.Base.Int.{pos}
use novapanda.Base.Dict.{get, put, values}
use novapanda.Base.Exec.{err}
use novapanda.Tests.Scene.{toy_host}
use novapanda.Claims.{
  Claim, Claims, ClaimError, ClaimCall, ClaimStep, asked, cleared, clear, take_step, issue, assign,
  reserve, redeem, spent, persist, load_all, store_claim, with_claim, redeem_claim,
  assignment_bytes, assign_claim, new_claim, moved, issue_claim, serve, serve_all,
}
use novapanda.Claims.Provenance.{AllChained, serve_all-AllChained}
use novapanda.Claims.Outcome.{claim_of}
use novapanda.Claims.Closed.{ended_claim-stays}
use novapanda.Claims.Durable.{IsKeyed, IsSynced, serve_all-reloads}
use novapanda.Claims.Mock.{mocked, mocks_of, issue_mock, serve_mock, serve-mocked}
use novapanda.Canonical.Dump.{
  normalize, normalize_items, normalize_fields, insert_member, sort_members, canonical, dumps,
  item_texts, members,
}
use novapanda.Canonical.Text.{digit, decimal, int_text, escape, escape_all, quoted, commas, before}
use novapanda.Base.{contains}

abbrev trim : String → String
trim s = s

abbrev no_claims : Claims
no_claims = record { by_id = []; file = some [] }

abbrev calls : List ClaimStep
calls =
    cleared
    ∷ asked (issue "claim_1" "t" "v" (pos 5) "" "ed25519:a" "")
    ∷ asked (assign "claim_1" "ed25519:b" "signed" "n" "t")
    ∷ asked (assign "claim_1" "nobody" "signed" "n" "t")
    ∷ asked (redeem "claim_1")
    ∷ []

abbrev first : Claim
first = new_claim "claim_1" "t" "v" (pos 5) "" "ed25519:a" ""

abbrev redeemed : Claim
redeemed = record (moved "ed25519:b" "signed" "n" "t" first) { status = spent }

abbrev after : Claims
after = record { by_id = ("claim_1", redeemed) ∷ []; file = some (redeemed ∷ []) }

calls_are_served : serve_all toy_host trim calls no_claims ≡ after
unfolding serve_all take_step clear serve issue_claim with_claim assign_claim redeem_claim
    assignment_bytes store_claim persist get put values normalize normalize_items normalize_fields
    insert_member sort_members canonical dumps item_texts members digit decimal int_text escape
    escape_all quoted commas before contains
calls_are_served = refl

serve_all-AllChained_example : AllChained toy_host calls (serve_all toy_host trim calls no_claims)
serve_all-AllChained_example = serve_all-AllChained toy_host trim calls no_claims refl

abbrev later_calls : List ClaimStep
later_calls = asked (reserve "claim_1" "ex") ∷ asked (redeem "claim_1") ∷ []

redeemed_is_there : get after.by_id "claim_1" ≡ some redeemed
unfolding get
redeemed_is_there = refl

no_new_id : ◌≡◌ {A = Option String} none (some "claim_1") → ⊥
no_new_id e = cc e

ended_claim-stays_example :
    (get (serve_all toy_host trim later_calls after).by_id "claim_1" ≡ some redeemed)
    × ((q : ClaimCall)
        → claim_of q ≡ some "claim_1"
        → (x : ClaimError) × ((serve toy_host trim q (serve_all toy_host trim later_calls after)).0
            ≡ err x))
ended_claim-stays_example =
    ended_claim-stays toy_host trim "claim_1" redeemed later_calls after redeemed_is_there refl
      (no_new_id, (no_new_id, tt))

nothing-IsSynced : IsSynced no_claims
unfolding IsKeyed values
nothing-IsSynced = record { keyed = tt; written = λ old e. some-injective old [] (sym e) }

written : (serve_all toy_host trim calls no_claims).file ≡ some (redeemed ∷ [])
written = ap (λ (s : Claims). s.file) calls_are_served

serve_all-reloads_example :
    load_all (redeemed ∷ []) [] ≡ (serve_all toy_host trim calls no_claims).by_id
serve_all-reloads_example =
    serve_all-reloads toy_host trim calls no_claims (redeemed ∷ []) nothing-IsSynced written

serve-mocked_example :
    serve_mock trim (issue_mock "claim_2" "t" "v" (pos 1) "" "ed25519:a") (mocks_of after.by_id)
    ≡ mocked (serve toy_host trim (issue "claim_2" "t" "v" (pos 1) "" "ed25519:a" "mock") after)
serve-mocked_example =
    serve-mocked toy_host trim "mock" (issue_mock "claim_2" "t" "v" (pos 1) "" "ed25519:a") after
      refl
