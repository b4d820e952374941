-- ===== src/Claims/Mock.antt =====
-- `ClaimMockRegistry` of novapanda/node/claim_mock.py, beside the registry that it stands for.
use novapanda.Base.{
  String, true, ◌||◌, Option, none, some, [], ◌∷◌, ◌==◌, ◌≡◌, refl, if◌then◌else◌, arith,
  Bool-cases, Option-cases, inl, inr,
}
use novapanda.Base.Dict.{Dict, get, put}
use novapanda.Base.Int.{ℤ, pos, ltb_ℤ}
use novapanda.Base.Exec.{Result, ok, err, Exec, Result-cases}
use novapanda.Base.Texts.{nonempty_or}
use novapanda.Host.Params.{Host}
use novapanda.Claims.Provenance.{by_id-store_claim}
use novapanda.Claims.{
  Status, open', reserved, spent, released, is_open, is_reserved, Claim, Claims, ClaimError,
  vdc_anchor_required, amount_negative, not_found, not_open, not_reserved, cannot_release,
  ClaimCall, issue, reserve, capture, release, is_agent_id, store_claim, with_claim, reserve_claim,
  capture_claim, release_claim, issue_claim, serve,
}

pub record MockClaim : Type 0 where
  pub claim_id : String
  pub vdc_id : String
  pub amount : ℤ
  pub currency : String
  pub holder : String
  pub status : Status
  pub created_at : String
  pub reserved_for : Option String

abbrev pub MockRun : Type 0
MockRun = Exec (Dict MockClaim) ClaimError MockClaim

unfoldable pub with_mock : String → (MockClaim → Result ClaimError MockClaim) → MockRun
with_mock k change s = elim (get s k) [
  | none ↦ (err not_found, s)
  | some c ↦ elim (change c) [ err e ↦ (err e, s) | ok c' ↦ (ok c', put s k c') ]
]

unfoldable pub reserve_mock : String → MockClaim → Result ClaimError MockClaim
reserve_mock exchange_id c =
    if is_open c.status
    then ok (record c { status = reserved; reserved_for = some exchange_id })
    else err not_open

unfoldable pub capture_mock : MockClaim → Result ClaimError MockClaim
capture_mock c = if is_reserved c.status then ok (record c { status = spent }) else err not_reserved

unfoldable pub release_mock : MockClaim → Result ClaimError MockClaim
release_mock c =
    if is_open c.status || is_reserved c.status
    then ok (record c { status = released; reserved_for = none })
    else err cannot_release

pub data MockCall : Type 0 where
  issue_mock : (id at vdc_id : String) → ℤ → (currency holder : String) → MockCall
  reserve_it : (claim_id for_exchange_id : String) → MockCall
  capture_it release_it : (claim_id : String) → MockCall

abbrev pub new_mock : (id at vdc_id : String) → ℤ → (currency holder : String) → MockClaim
new_mock id at vdc_id amount currency holder = record {
  claim_id = id;
  vdc_id = vdc_id;
  amount = amount;
  currency = nonempty_or currency "USD";
  holder = holder;
  status = open';
  created_at = at;
  reserved_for = none;
}

module _ (strip : String → String) where
  unfoldable pub issue_mocked : (id at vdc_id : String) → ℤ → (currency holder : String) → MockRun
  issue_mocked id at vdc_id amount currency holder s =
      if vdc_id == "" || strip vdc_id == ""
      then (err vdc_anchor_required, s)
      else if ltb_ℤ amount (pos 0)
      then (err amount_negative, s)
      else (
        ok (new_mock id at (strip vdc_id) amount currency holder),
        put s id (new_mock id at (strip vdc_id) amount currency holder),
      )

  unfoldable pub serve_mock : MockCall → MockRun
  serve_mock (issue_mock id at vdc_id amount currency holder) =
      issue_mocked id at vdc_id amount currency holder
  serve_mock (reserve_it k exchange_id) = with_mock k (reserve_mock exchange_id)
  serve_mock (capture_it k) = with_mock k capture_mock
  serve_mock (release_it k) = with_mock k release_mock

-- What the mock registry keeps of a claim.
abbrev pub mock_of : Claim → MockClaim
mock_of c = record {
  claim_id = c.claim_id;
  vdc_id = c.vdc_id;
  amount = c.amount;
  currency = c.currency;
  holder = c.holder_agent_id;
  status = c.status;
  created_at = c.issued_at;
  reserved_for = c.reserved_for;
}

unfoldable pub mocks_of : Dict Claim → Dict MockClaim
mocks_of [] = []
mocks_of ((k, c) ∷ d) = (k, mock_of c) ∷ mocks_of d

-- The call of the registry that a call of the mock stands for.
abbrev pub call_of : String → MockCall → ClaimCall
call_of rail (issue_mock id at vdc_id amount currency holder) =
    issue id at vdc_id amount currency holder rail
call_of rail (reserve_it k exchange_id) = reserve k exchange_id
call_of rail (capture_it k) = capture k
call_of rail (release_it k) = release k

-- A claim is issued to an agent's id, which only the registry checks.
abbrev pub ForAgent : MockCall → Type 0
ForAgent (issue_mock id at vdc_id amount currency holder) = is_agent_id holder ≡ true
ForAgent _ = Unit

abbrev pub mock_result : Result ClaimError Claim → Result ClaimError MockClaim
mock_result (err e) = err e
mock_result (ok c) = ok (mock_of c)

abbrev pub mocked : Result ClaimError Claim × Claims → Result ClaimError MockClaim × Dict MockClaim
mocked (r, s) = (mock_result r, mocks_of s.by_id)

get-mocks_of :
    (d : Dict Claim) (k : String)
    → get (mocks_of d) k ≡ elim (get d k) [ none ↦ none | some c ↦ some (mock_of c) ]
unfolding get mocks_of
get-mocks_of [] k = refl
get-mocks_of ((j, c) ∷ d) k = ground (arith, get-mocks_of d k)

mocks_of-put :
    (d : Dict Claim) (k : String) (c : Claim)
    → mocks_of (put d k c) ≡ put (mocks_of d) k (mock_of c)
unfolding put mocks_of
mocks_of-put [] k c = refl
mocks_of-put ((j, x) ∷ d) k c = ground (arith, mocks_of-put d k c)

mocks_of-store_claim :
    (k : String) (c : Claim) (s : Claims)
    → mocks_of (store_claim k c s).by_id ≡ put (mocks_of s.by_id) k (mock_of c)
mocks_of-store_claim k c s = rw by_id-store_claim (mocks_of-put s.by_id k c)

-- The changes agree.
Agree : (Claim → Result ClaimError Claim) → (MockClaim → Result ClaimError MockClaim) → Type 0
Agree f g = (c : Claim) → g (mock_of c) ≡ mock_result (f c)

with_mock-mocked :
    (k : String) (f : Claim → Result ClaimError Claim) (g : MockClaim → Result ClaimError MockClaim)
    (s : Claims)
    → Agree f g
    → with_mock k g (mocks_of s.by_id) ≡ mocked (with_claim k f s)
unfolding with_mock with_claim Agree
with_mock-mocked k f g s agree = elim (Option-cases (get s.by_id k)) [
  | inl gone ↦ rw (get-mocks_of, gone, with_mock, with_claim) refl
  | inr (c, there) ↦ elim (Result-cases (f c)) [
    | inr (x, bad) ↦ rw (get-mocks_of, there, with_mock, with_claim) (rw (agree c, bad) refl)
    | inl (c', good) ↦
        rw (get-mocks_of, there, with_mock, with_claim)
          (rw (agree c, good, mocks_of-store_claim) refl)
  ]
]

reserve-Agree : (x : String) → Agree (reserve_claim x) (reserve_mock x)
unfolding Agree reserve_claim reserve_mock
reserve-Agree x c = ground arith

capture-Agree : Agree capture_claim capture_mock
unfolding Agree capture_claim capture_mock
capture-Agree c = ground arith

release-Agree : Agree release_claim release_mock
unfolding Agree release_claim release_mock
release-Agree c = ground arith

module _ (h : Host) (strip : String → String) (rail : String) where
  -- On the same claims the mock registry answers a call as the registry does, with the same error or
  -- with what it keeps of the same claim, and the claims are the same afterwards; a claim is issued to
  -- the id of an agent, which only the registry checks.
  pub serve-mocked :
      (q : MockCall) (s : Claims)
      → ForAgent q
      → serve_mock strip q (mocks_of s.by_id) ≡ mocked (serve h strip (call_of rail q) s)
  unfolding serve serve_mock issue_claim issue_mocked
  serve-mocked (issue_mock id at vdc_id amount currency holder) s agent =
      elim (Bool-cases (vdc_id == "" || strip vdc_id == "")) [
        | inl empty ↦ rw (empty, issue_claim, issue_mocked) refl
        | inr anchored ↦ elim (Bool-cases (ltb_ℤ amount (pos 0))) [
          | inl less ↦ rw (anchored, less, issue_claim, issue_mocked) refl
          | inr more ↦
              rw (anchored, more, agent, issue_claim, issue_mocked) (rw mocks_of-store_claim refl)
        ]
      ]
  serve-mocked (reserve_it k x) s agent = with_mock-mocked k _ _ s (reserve-Agree x)
  serve-mocked (capture_it k) s agent = with_mock-mocked k _ _ s capture-Agree
  serve-mocked (release_it k) s agent = with_mock-mocked k _ _ s release-Agree
