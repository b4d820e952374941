-- ===== src/Claims/Provenance.antt =====
-- How the holders of a claim follow one another.
use mathlib.Core.Path.{subst}
use mathlib.Core.Option.{some-injective}
use novapanda.Base.{
  String, true, ◌||◌, some, ap, List, [], ◌∷◌, ◌++◌, ◌==◌, ◌≡◌, refl, sym, ◌∙◌, arith, Bool-cases,
  Option-cases, inl, inr, eq_iff,
}
use novapanda.Base.Int.{ℤ, ltb_ℤ, pos}
use novapanda.Base.Dict.{get, put, get-put, get-empty}
use novapanda.Base.Seq.{Among}
use novapanda.Base.Exec.{Result, ok, Result-cases}
use novapanda.Host.Params.{Host}
use novapanda.Claims.{
  Link, Claim, Claims, ClaimError, ClaimCall, ClaimStep, asked, cleared, clear, take_step, issue,
  assign, reserve, capture, release, redeem, persist, store_claim, with_claim, reserve_claim,
  capture_claim, release_claim, redeem_claim, assignment_bytes, assign_claim, moved, new_claim,
  issue_claim, serve, serve_all, is_open, is_agent_id,
}

by_id-persist : (s : Claims) → (persist s).by_id ≡ s.by_id
unfolding persist
by_id-persist s = ground arith

pub by_id-store_claim :
    (k : String) (c : Claim) (s : Claims) → (store_claim k c s).by_id ≡ put s.by_id k c
unfolding store_claim
by_id-store_claim k c s = by_id-persist _

module _ (h : Host) (k : String) where
  -- The holder of that time signed the assignment of this claim.
  pub Signed : Link → Type 0
  Signed l =
      (msg : String) × (assignment_bytes h k l.recipient l.nonce l.at ≡ ok msg)
      × (h.verify l.sender l.sig msg ≡ true)

  -- From the first holder to the last, each link signed by the one who gives the claim away.
  unfoldable pub Chain : List Link → String → String → Type 0
  Chain [] first last = first ≡ last
  Chain (l ∷ ls) first last = (l.sender ≡ first) × Signed l × Chain ls l.recipient last

  Chain-append :
      (ls : List Link) (first last : String) (l : Link)
      → Chain ls first last
      → l.sender ≡ last
      → Signed l
      → Chain (ls ++ l ∷ []) first l.recipient
  unfolding Chain
  Chain-append [] first last l c e s = (e ∙ sym c, s, refl)
  Chain-append (x ∷ xs) first last l (a, b, c) e s =
      (a, b, Chain-append xs x.recipient last l c e s)

-- Among the calls is one of `issue` that gives a new claim this id and this holder.
pub record Issued (qs : List ClaimStep) (claim_id holder : String) : Type 0 where
  pub at : String
  pub vdc_id : String
  pub amount : ℤ
  pub currency : String
  pub rail : String
  pub asked : Among (asked (issue claim_id at vdc_id amount currency holder rail)) qs

-- The claim has come to its holder by a chain of signed assignments from an agent that it was issued to.
unfoldable pub IsChained : Host → List ClaimStep → String → Claim → Type 0
IsChained h steps k c =
    (first : String) × Issued steps k first × Chain h k c.lineage first c.holder_agent_id

-- Every claim has.
unfoldable pub AllChained : Host → List ClaimStep → Claims → Type 0
AllChained h steps s = (k : String) (c : Claim) → get s.by_id k ≡ some c → IsChained h steps k c

module _ (h : Host) (strip : String → String) (steps : List ClaimStep) where
  AllChained-store :
      (k : String) (c : Claim) (s : Claims)
      → AllChained h steps s
      → IsChained h steps k c
      → AllChained h steps (store_claim k c s)
  unfolding AllChained
  AllChained-store k c s all chained j d e = elim (Bool-cases (k == j)) [
    | inl q ↦
        let p : c ≡ d = some-injective c d (rw (by_id-store_claim, get-put, q) at e) in
        let r : k ≡ j = (eq_iff k j).0 q in
        subst (λ x. IsChained h steps j x) p (subst (λ x. IsChained h steps x c) r chained)
    | inr q ↦ all j d (rw (by_id-store_claim, get-put, q) at e)
  ]

  AllChained-with_claim :
      (k : String) (change : Claim → Result ClaimError Claim) (s : Claims)
      → ((c c' : Claim) → IsChained h steps k c → change c ≡ ok c' → IsChained h steps k c')
      → AllChained h steps s
      → AllChained h steps (with_claim k change s).1
  unfolding with_claim
  AllChained-with_claim k change s keeps all = elim (Option-cases (get s.by_id k)) [
    | inl gone ↦ rw (gone, with_claim) all
    | inr (c, there) ↦ elim (Result-cases (change c)) [
      | inr (x, failed) ↦ rw (there, failed, with_claim) all
      | inl (c', done) ↦
          rw (there, done, with_claim)
            (AllChained-store k c' s all (keeps c c' (unfold AllChained in all k c there) done))
    ]
  ]

  abbrev SameLineage : (Claim → Result ClaimError Claim) → Type 0
  SameLineage change =
      (c c' : Claim)
      → change c ≡ ok c'
      → (c'.lineage ≡ c.lineage) × (c'.holder_agent_id ≡ c.holder_agent_id)

  keeps_chain :
      (k : String) (change : Claim → Result ClaimError Claim)
      → SameLineage change
      → (c c' : Claim) → IsChained h steps k c
      → change c ≡ ok c'
      → IsChained h steps k c'
  unfolding IsChained
  keeps_chain k change same c c' (first, issued, chain) e =
      let (p, q) = same c c' e in (first, issued, rw (p, q) chain)

  assign-IsChained :
      (k to sig nonce at : String) (c c' : Claim)
      → IsChained h steps k c
      → assign_claim h k to sig nonce at c ≡ ok c'
      → IsChained h steps k c'
  unfolding IsChained assign_claim Signed
  assign-IsChained k to sig nonce at c c' (first, issued, chain) e =
      elim (Bool-cases (is_open c.status)) [
        | inr shut ↦ absurd (cc (rw (shut, assign_claim) at e))
        | inl free ↦ elim (Bool-cases (is_agent_id to)) [
          | inr bad ↦ absurd (cc (rw (free, bad, assign_claim) at e))
          | inl fine ↦ elim (Result-cases (assignment_bytes h k to nonce at)) [
            | inr (x, f) ↦ absurd (cc (rw (free, fine, f, assign_claim) at e))
            | inl (msg, f) ↦ elim (Bool-cases (h.verify c.holder_agent_id sig msg)) [
              | inr forged ↦ absurd (cc (rw (free, fine, f, forged, assign_claim) at e))
              | inl real ↦
                  let p : moved to sig nonce at c ≡ c' =
                    cc (rw (free, fine, f, real, assign_claim) at e) in
                  subst (IsChained h steps k) p (
                    first,
                    issued,
                    Chain-append h k c.lineage first c.holder_agent_id _ chain refl (msg, f, real),
                  )
            ]
          ]
        ]
      ]

  same-reserve : (x : String) → SameLineage (reserve_claim x)
  unfolding reserve_claim
  same-reserve x c c' e = ground arith

  same-capture : SameLineage capture_claim
  unfolding capture_claim
  same-capture c c' e = ground arith

  same-release : SameLineage release_claim
  unfolding release_claim
  same-release c c' e = ground arith

  same-redeem : SameLineage redeem_claim
  unfolding redeem_claim
  same-redeem c c' e = ground arith

  AllChained-issue :
      (id at vdc_id : String) (amount : ℤ) (currency holder rail : String) (s : Claims)
      → Among (asked (issue id at vdc_id amount currency holder rail)) steps
      → AllChained h steps s
      → AllChained h steps (issue_claim strip id at vdc_id amount currency holder rail s).1
  unfolding issue_claim IsChained
  AllChained-issue id at vdc_id amount currency holder rail s now all =
      elim (Bool-cases (vdc_id == "" || strip vdc_id == "")) [
        | inl empty ↦ rw (empty, issue_claim) all
        | inr anchored ↦ elim (Bool-cases (ltb_ℤ amount (pos 0))) [
          | inl less ↦ rw (anchored, less, issue_claim) all
          | inr more ↦ elim (Bool-cases (is_agent_id holder)) [
            | inr bad ↦ rw (anchored, more, bad, issue_claim) all
            | inl fine ↦
                rw (anchored, more, fine, issue_claim)
                  (AllChained-store id (new_claim id at (strip vdc_id) amount currency holder rail)
                    s all
                    (
                      holder,
                      record {
                        at = at;
                        vdc_id = vdc_id;
                        amount = amount;
                        currency = currency;
                        rail = rail;
                        asked = now;
                      },
                      unfold Chain in refl,
                    ))
          ]
        ]
      ]

  pub AllChained-serve :
      (q : ClaimCall) (s : Claims)
      → Among (asked q) steps
      → AllChained h steps s
      → AllChained h steps (serve h strip q s).1
  unfolding serve
  AllChained-serve (issue id at vdc_id amount currency holder rail) s now all =
      AllChained-issue id at vdc_id amount currency holder rail s now all
  AllChained-serve (assign k to sig nonce at) s now all =
      AllChained-with_claim k _ s (assign-IsChained k to sig nonce at) all
  AllChained-serve (reserve k x) s now all =
      AllChained-with_claim k _ s (keeps_chain k _ (same-reserve x)) all
  AllChained-serve (capture k) s now all =
      AllChained-with_claim k _ s (keeps_chain k _ same-capture) all
  AllChained-serve (release k) s now all =
      AllChained-with_claim k _ s (keeps_chain k _ same-release) all
  AllChained-serve (redeem k) s now all =
      AllChained-with_claim k _ s (keeps_chain k _ same-redeem) all

  AllChained-empty : (s : Claims) → s.by_id ≡ [] → AllChained h steps s
  unfolding AllChained
  AllChained-empty s empty k c e = absurd (cc (e, ap (λ d. get d k) empty, get-empty k))

  AllChained-step :
      (q : ClaimStep) (s : Claims)
      → Among q steps
      → AllChained h steps s
      → AllChained h steps (take_step h strip q s)
  unfolding take_step clear
  AllChained-step (asked q) s now all = AllChained-serve q s now all
  AllChained-step cleared s now all = AllChained-empty _ (by_id-persist _)

  AllChained-rest :
      (qs : List ClaimStep) (s : Claims)
      → ((q : ClaimStep) → Among q qs → Among q steps)
      → AllChained h steps s
      → AllChained h steps (serve_all h strip qs s)
  unfolding serve_all
  AllChained-rest [] s within all = all
  AllChained-rest (q ∷ qs) s within all =
      AllChained-rest qs _ (λ p m. within p (inr m)) (AllChained-step q s (within q (inl refl)) all)

-- Whatever happens to a registry that has no claims, in any order, failing calls and `clear` included:
-- each claim has come to its holder from an agent to which one of the calls issued it, under its id, by
-- the chain of all its assignments. Each link is from the holder before it, bears a signature of that
-- holder on the assignment of this very claim to the holder after it, and the last is the holder of the
-- claim; without a link, the agent is.
pub serve_all-AllChained :
    (h : Host) (strip : String → String) (qs : List ClaimStep) (s : Claims)
    → s.by_id ≡ []
    → AllChained h qs (serve_all h strip qs s)
serve_all-AllChained h strip qs s empty =
    AllChained-rest h strip qs qs s (λ q m. m) (AllChained-empty h strip qs s empty)
