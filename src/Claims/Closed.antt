-- ===== src/Claims/Closed.antt =====
-- A claim that was spent or released is used up.
use mathlib.Core.Option.{some-injective}
use novapanda.Base.{
  String, false, List, [], ◌∷◌, ◌==◌, ◌≡◌, ◌≢◌, some, Bool-cases, inl, inr, eq_iff,
}
use novapanda.Base.Dict.{get, get-put}
use novapanda.Base.Seq.{All}
use novapanda.Base.Exec.{err}
use novapanda.Host.Params.{Host}
use novapanda.Claims.{
  Claim, Claims, ClaimError, ClaimCall, ClaimStep, asked, cleared, take_step, store_claim, serve,
  serve_all,
}
use novapanda.Claims.Provenance.{by_id-store_claim}
use novapanda.Claims.Outcome.{
  is_live, new_id, claim_of, Outcome, failed, issued, changed, serve-Outcome, serve-refuses,
}

abbrev Ended : String → Claim → Claims → Type 0
Ended k b s = get s.by_id k ≡ some b

stored_apart :
    (j k : String) (c b : Claim) (s : Claims)
    → (j == k) ≡ false
    → Ended k b s
    → Ended k b (store_claim j c s)
stored_apart j k c b s apart there = rw (by_id-store_claim, get-put, apart) there

Outcome-Ended :
    {q : ClaimCall} {s t : Claims} (k : String) (b : Claim)
    → Outcome q s t
    → new_id q ≢ some k
    → is_live b.status ≡ false
    → Ended k b s
    → Ended k b t
Outcome-Ended k b failed fresh dead there = there
Outcome-Ended {s = s} k b (issued j c is same) fresh dead there = elim (Bool-cases (j == k)) [
  | inl q ↦ absurd (fresh (rw (← (eq_iff j k).0 q) is))
  | inr q ↦ stored_apart j k c b s q there
]
Outcome-Ended {s = s} k b (changed j a c found live same) fresh dead there =
    elim (Bool-cases (j == k)) [
      | inl q ↦
          let p : a ≡ b = some-injective a b (cc (found, there, (eq_iff j k).0 q)) in
          absurd (cc (p, live, dead))
      | inr q ↦ stored_apart j k c b s q there
    ]

-- A step that does not drop or replace the claim: `clear` drops every claim, and a new claim under its id
-- replaces it.
abbrev pub Spares : String → ClaimStep → Type 0
Spares k (asked q) = new_id q ≢ some k
Spares k cleared = ⊥

-- Whatever happens to the registry, in any order and failing calls included, but for `clear` and a new
-- claim under the same id: a claim that was spent or released stays as it is; and every further call to
-- assign, reserve, capture, release or redeem it fails.
pub ended_claim-stays :
    (h : Host) (strip : String → String) (k : String) (b : Claim) (qs : List ClaimStep) (s : Claims)
    → get s.by_id k ≡ some b
    → is_live b.status ≡ false
    → All (Spares k) qs
    → (get (serve_all h strip qs s).by_id k ≡ some b)
      × ((q : ClaimCall)
          → claim_of q ≡ some k
          → (x : ClaimError) × ((serve h strip q (serve_all h strip qs s)).0 ≡ err x))
unfolding serve_all take_step
ended_claim-stays h strip k b [] s there dead fresh =
    (there, λ q is. serve-refuses h strip q k s b is there dead)
ended_claim-stays h strip k b (cleared ∷ qs) s there dead (gone, fresh) = absurd gone
ended_claim-stays h strip k b (asked q ∷ qs) s there dead (new, fresh) =
    ended_claim-stays h strip k b qs (serve h strip q s).1
      (Outcome-Ended k b (serve-Outcome h strip q s) new dead there) dead fresh
