-- ===== src/Composer.antt =====
-- `Composer` of novapanda/composer.py: the legs of a bundle, run in the order of their dependencies. The
-- wallet of claims and what runs a leg are parameters; what they raise is its text.
pub mod Ends
pub mod Finish
use novapanda.Base.{
  ℕ, zero, suc, String, Bool, true, false, not, ◌&&◌, ◌||◌, Option, none, some, List, [], ◌∷◌, ◌++◌,
  ◌==◌, contains, if◌then◌else◌,
}
use novapanda.Base.Dict.{Dict, get, put}
use novapanda.Base.Exec.{Result, ok, err, Exec}
use novapanda.Base.Texts.{text_or}
use novapanda.Bundle.{Bundle, OrderError, parents_of, topological_order}

pub record LegResult : Type 0 where
  pub leg_id : String
  pub exchange_id : Option String
  pub vdc_id : Option String
  pub state : String
  pub error : Option String

-- the wallet that `claim_for_leg` gives
pub record ClaimWallet (W : Type 0) : Type 0 where
  pub reserve : (claim_id exchange_id : String) → Exec W String Unit
  pub capture : String → Exec W String Unit
  pub release : String → Exec W String Unit

-- the ids that `claim_for_leg` gives for a leg
pub record Reservation : Type 0 where
  pub claim_id : String
  pub exchange_id : String

pub record BundleRunState (W : Type 0) : Type 0 where
  pub exchange_states : Dict String
  pub vdc_ids : Dict String
  pub failed_legs : List String
  pub claim_reservations : List (String × Reservation)
  pub results : Dict LegResult
  pub world : W

-- what `run_all` raises; `no_rounds` is the model's own
pub data RunError : Type 0 where
  not_ordered : OrderError → RunError
  no_rounds : RunError

abbrev pub has_state : String → Option String → Bool
has_state s none = false
has_state s (some t) = t == s

abbrev pub is_settled_in : Dict String → String → Bool
is_settled_in states leg = has_state "SETTLED" (get states leg)

-- what `next_ready` passes over
abbrev pub is_over : Dict String → String → Bool
is_over states leg =
    is_settled_in states leg
    || has_state "failed" (get states leg)
    || has_state "skipped" (get states leg)

unfoldable pub all_settled_in : Dict String → List String → Bool
all_settled_in states [] = true
all_settled_in states (p ∷ ps) = is_settled_in states p && all_settled_in states ps

unfoldable pub ready_legs : Bundle → Dict String → List String → List String
unfolding all_settled_in
ready_legs b states [] = []
ready_legs b states (leg ∷ legs) =
    let rest = ready_legs b states legs in
    if not (is_over states leg) && all_settled_in states (parents_of b.depends_on leg)
    then leg ∷ rest
    else rest

abbrev failed_result : String → String → LegResult
failed_result leg e = record {
  leg_id = leg;
  exchange_id = none;
  vdc_id = none;
  state = "failed";
  error = some e;
}

abbrev pub is_lost : String → Bool
is_lost s = s == "REJECTED" || s == "EXPIRED_REFUNDED" || s == "CANCELLED" || s == "failed"

module _ {W : Type 0} (wallet : ClaimWallet W) (run_fn : String → Exec W String LegResult) where
  -- the claim of a leg, by its id, if that is not empty
  abbrev pub claim_of : Option Reservation → Option String
  claim_of none = none
  claim_of (some c) = if c.claim_id == "" then none else some c.claim_id

  abbrev reserve_id : String → String → Exec W String Bool
  reserve_id claim_id exchange_id w =
      let (r, w') = wallet.reserve claim_id exchange_id w in
      elim r [ err e ↦ (err e, w') | ok _ ↦ (ok true, w') ]

  -- `reserved`
  abbrev pub reserve_if : Option Reservation → Exec W String Bool
  reserve_if none w = (ok false, w)
  reserve_if (some c) w =
      if c.claim_id == "" || c.exchange_id == ""
      then (ok false, w)
      else reserve_id c.claim_id c.exchange_id w

  -- the `except` of `run_leg`
  abbrev pub gave_up : String → Option String → Bool → String → W → LegResult × W
  gave_up leg (some claim) true e w = (failed_result leg e, (wallet.release claim w).1)
  gave_up leg _ _ e w = (failed_result leg e, w)

  abbrev pub closed_or :
      String → Option String → Bool → LegResult → Result String Unit × W → LegResult × W
  closed_or leg claim reserved result (err e, w) = gave_up leg claim reserved e w
  closed_or leg claim reserved result (ok _, w) = (result, w)

  -- the claim after the leg
  abbrev pub closing : String → Option String → Bool → LegResult → W → LegResult × W
  closing leg none reserved result w = (result, w)
  closing leg (some claim) reserved result w =
      if result.state == "SETTLED"
      then closed_or leg (some claim) reserved result (wallet.capture claim w)
      else if is_lost result.state && reserved
      then closed_or leg (some claim) reserved result (wallet.release claim w)
      else (result, w)

  abbrev pub ran : String → Option String → Bool → Result String LegResult × W → LegResult × W
  ran leg claim reserved (err e, w) = gave_up leg claim reserved e w
  ran leg claim reserved (ok result, w) = closing leg claim reserved result w

  abbrev pub reserved_or : String → Option String → Result String Bool × W → LegResult × W
  reserved_or leg claim (err e, w) = gave_up leg claim false e w
  reserved_or leg claim (ok reserved, w) = ran leg claim reserved (run_fn leg w)

  unfoldable pub run_leg : String → Option Reservation → W → LegResult × W
  run_leg leg c w = reserved_or leg (claim_of c) (reserve_if c w)

  abbrev pub noted : String → Option String → String → Dict String → Dict String
  noted leg present v d = if text_or present "" == "" then d else put d leg v

  abbrev note_reservation :
      String → Option Reservation → List (String × Reservation) → List (String × Reservation)
  note_reservation leg none xs = xs
  note_reservation leg (some c) xs = xs ++ (leg, c) ∷ []

  abbrev pub is_failed : LegResult → Bool
  is_failed result = not (result.state == "SETTLED")

  -- what `run_all` notes of a leg
  abbrev pub note :
      String → Option Reservation → LegResult → W → BundleRunState W → BundleRunState W
  note leg c result w run = record {
    exchange_states = noted leg result.exchange_id result.state run.exchange_states;
    vdc_ids = noted leg result.vdc_id (text_or result.vdc_id "") run.vdc_ids;
    failed_legs = if is_failed result then run.failed_legs ++ leg ∷ [] else run.failed_legs;
    claim_reservations = note_reservation leg c run.claim_reservations;
    results = put run.results leg result;
    world = w;
  }

  module _ (abort_rest : Bool) (optional_legs : List String)
      (claim_for_leg : String → Option Reservation) where
    abbrev pub one_leg : String → BundleRunState W → LegResult × BundleRunState W
    one_leg leg run =
        let (result, w) = run_leg leg (claim_for_leg leg) run.world in
        (result, note leg (claim_for_leg leg) result w run)

    -- whether `run_all` returns after the leg
    abbrev pub stops : String → LegResult → Bool
    stops leg result = is_failed result && (not (contains leg optional_legs) && abort_rest)

    -- The `for`; `true` where it returns.
    unfoldable pub run_legs : List String → BundleRunState W → Bool × BundleRunState W
    unfolding run_leg
    run_legs [] run = (false, run)
    run_legs (leg ∷ legs) run = elim (stops leg (one_leg leg run).0) [
      | true ↦ (true, (one_leg leg run).1)
      | false ↦ run_legs legs (one_leg leg run).1
    ]

    -- The `while`, with the number of rounds it may take; the order is the same in each.
    unfoldable pub run_rounds :
        ℕ → Bundle → List String → BundleRunState W → Result RunError (BundleRunState W)
    unfolding ready_legs
    run_rounds zero b order run = err no_rounds
    run_rounds (suc n) b order run = elim (ready_legs b run.exchange_states order) [
      | [] ↦ ok run
      | leg ∷ legs ↦ elim (run_legs (leg ∷ legs) run).0 [
        | true ↦ ok (run_legs (leg ∷ legs) run).1
        | false ↦ run_rounds n b order (run_legs (leg ∷ legs) run).1
      ]
    ]

    abbrev pub new_run : W → BundleRunState W
    new_run w = record {
      exchange_states = [];
      vdc_ids = [];
      failed_legs = [];
      claim_reservations = [];
      results = [];
      world = w;
    }

    unfoldable pub run_all : ℕ → Bundle → W → Result RunError (BundleRunState W)
    run_all n b w = elim (topological_order b) [
      | err e ↦ err (not_ordered e)
      | ok order ↦ run_rounds n b order (new_run w)
    ]
