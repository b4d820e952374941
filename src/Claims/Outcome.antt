-- ===== src/Claims/Outcome.antt =====
-- What a call does to the registry: nothing, a new claim, or a change of a claim that is alive.
use mathlib.Core.Option.{some-injective}
use novapanda.Base.{
  String, Bool, true, false, ◌||◌, Option, none, some, ◌==◌, ◌≡◌, refl, arith, Bool-cases,
  Option-cases, inl, inr,
}
use novapanda.Base.Int.{ltb_ℤ, pos}
use novapanda.Base.Dict.{get}
use novapanda.Base.Exec.{Result, ok, err, Result-cases}
use novapanda.Host.Params.{Host}
use novapanda.Claims.{
  Status, Claim, Claims, ClaimError, ClaimCall, issue, assign, reserve, capture, release, redeem,
  store_claim, with_claim, reserve_claim, capture_claim, release_claim, redeem_claim,
  assignment_bytes, assign_claim, new_claim, issue_claim, serve, is_open, is_reserved, is_agent_id,
}

-- Open or reserved.
abbrev pub is_live : Status → Bool
is_live s = is_open s || is_reserved s

-- the id that `issue` is given
abbrev pub new_id : ClaimCall → Option String
new_id (issue id at vdc_id amount currency holder rail) = some id
new_id _ = none

-- the claim that a call is about
abbrev pub claim_of : ClaimCall → Option String
claim_of (issue id at vdc_id amount currency holder rail) = none
claim_of (assign k to_agent_id signature nonce at) = some k
claim_of (reserve k exchange_id) = some k
claim_of (capture k) = some k
claim_of (release k) = some k
claim_of (redeem k) = some k

pub data Outcome (q : ClaimCall) (s : Claims) : Claims → Type 0 where
  failed : Outcome q s s
  issued :
      (k : String) (c : Claim)
      → new_id q ≡ some k
      → c.claim_id ≡ k
      → Outcome q s (store_claim k c s)
  changed :
      (k : String) (b c : Claim)
      → get s.by_id k ≡ some b
      → is_live b.status ≡ true
      → c.claim_id ≡ b.claim_id
      → Outcome q s (store_claim k c s)

-- A change that is made only of a live claim, whose id it keeps.
abbrev pub OfLive : (Claim → Result ClaimError Claim) → Type 0
OfLive change =
    (b c : Claim) → change b ≡ ok c → (is_live b.status ≡ true) × (c.claim_id ≡ b.claim_id)

reserve_claim-OfLive : (x : String) → OfLive (reserve_claim x)
unfolding reserve_claim
reserve_claim-OfLive x b c e = ground arith

capture_claim-OfLive : OfLive capture_claim
unfolding capture_claim
capture_claim-OfLive b c e = ground arith

release_claim-OfLive : OfLive release_claim
unfolding release_claim
release_claim-OfLive b c e = ground arith

redeem_claim-OfLive : OfLive redeem_claim
unfolding redeem_claim
redeem_claim-OfLive b c e = ground arith

assign_claim-OfLive :
    (h : Host) (k to sig nonce at : String) → OfLive (assign_claim h k to sig nonce at)
unfolding assign_claim
assign_claim-OfLive h k to sig nonce at b c e =
    elim (Result-cases (assignment_bytes h k to nonce at)) [
      | inl (msg, f) ↦ ground (arith, f)
      | inr (x, f) ↦ ground (arith, f)
    ]

with_claim-Outcome :
    (q : ClaimCall) (k : String) (change : Claim → Result ClaimError Claim) (s : Claims)
    → OfLive change
    → Outcome q s (with_claim k change s).1
unfolding with_claim
with_claim-Outcome q k change s of = elim (Option-cases (get s.by_id k)) [
  | inl gone ↦ rw (gone, with_claim) failed
  | inr (b, there) ↦ elim (Result-cases (change b)) [
    | inr (x, bad) ↦ rw (there, bad, with_claim) failed
    | inl (c, good) ↦
        let (live, same) = of b c good in
        rw (there, good, with_claim) (changed k b c there live same)
  ]
]

-- A call about a claim that is not live fails.
with_claim-refuses :
    (k : String) (change : Claim → Result ClaimError Claim) (s : Claims) (b : Claim)
    → OfLive change
    → get s.by_id k ≡ some b
    → is_live b.status ≡ false
    → (x : ClaimError) × ((with_claim k change s).0 ≡ err x)
unfolding with_claim
with_claim-refuses k change s b of there dead = elim (Result-cases (change b)) [
  | inr (x, bad) ↦ (x, rw (there, bad, with_claim) refl)
  | inl (c, good) ↦ absurd (cc ((of b c good).0, dead))
]

module _ (h : Host) (strip : String → String) where
  pub serve-Outcome : (q : ClaimCall) (s : Claims) → Outcome q s (serve h strip q s).1
  unfolding serve issue_claim
  serve-Outcome (issue id at vdc_id amount currency holder rail) s =
      elim (Bool-cases (vdc_id == "" || strip vdc_id == "")) [
        | inl empty ↦ rw (empty, issue_claim) failed
        | inr anchored ↦ elim (Bool-cases (ltb_ℤ amount (pos 0))) [
          | inl less ↦ rw (anchored, less, issue_claim) failed
          | inr more ↦ elim (Bool-cases (is_agent_id holder)) [
            | inr bad ↦ rw (anchored, more, bad, issue_claim) failed
            | inl fine ↦
                rw (anchored, more, fine, issue_claim)
                  (issued id (new_claim id at (strip vdc_id) amount currency holder rail) refl refl)
          ]
        ]
      ]
  serve-Outcome (assign k to sig nonce at) s =
      with_claim-Outcome _ k _ s (assign_claim-OfLive h k to sig nonce at)
  serve-Outcome (reserve k x) s = with_claim-Outcome _ k _ s (reserve_claim-OfLive x)
  serve-Outcome (capture k) s = with_claim-Outcome _ k _ s capture_claim-OfLive
  serve-Outcome (release k) s = with_claim-Outcome _ k _ s release_claim-OfLive
  serve-Outcome (redeem k) s = with_claim-Outcome _ k _ s redeem_claim-OfLive

  pub serve-refuses :
      (q : ClaimCall) (k : String) (s : Claims) (b : Claim)
      → claim_of q ≡ some k
      → get s.by_id k ≡ some b
      → is_live b.status ≡ false
      → (x : ClaimError) × ((serve h strip q s).0 ≡ err x)
  unfolding serve
  serve-refuses (issue id at vdc_id amount currency holder rail) k s b is there dead =
      absurd (cc is)
  serve-refuses (assign j to sig nonce at) k s b is there dead =
      with_claim-refuses j _ s b (assign_claim-OfLive h j to sig nonce at)
        (rw (some-injective j k is) there) dead
  serve-refuses (reserve j x) k s b is there dead =
      with_claim-refuses j _ s b (reserve_claim-OfLive x) (rw (some-injective j k is) there) dead
  serve-refuses (capture j) k s b is there dead =
      with_claim-refuses j _ s b capture_claim-OfLive (rw (some-injective j k is) there) dead
  serve-refuses (release j) k s b is there dead =
      with_claim-refuses j _ s b release_claim-OfLive (rw (some-injective j k is) there) dead
  serve-refuses (redeem j) k s b is there dead =
      with_claim-refuses j _ s b redeem_claim-OfLive (rw (some-injective j k is) there) dead
