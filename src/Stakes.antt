-- ===== src/Stakes.antt =====
-- novapanda/v2/stake.py, with `build_stake_lock` and `validate_stake_lock` of novapanda/v2/witness.py:
-- stakes that are locked, released and slashed. A bound store is the dict of `InMemoryStore`.
pub mod Closed
pub mod Counted
use novapanda.Base.{
  ℕ, ◌+◌, String, Bool, true, false, not, ◌&&◌, ◌||◌, Option, none, some, List, [], ◌∷◌, ◌++◌, ◌==◌,
  or_else, if◌then◌else◌,
}
use novapanda.Base.Int.{ℤ, pos, ltb_ℤ}
use novapanda.Base.Dict.{Dict, get, put, values}
use novapanda.Base.Exec.{Result, ok, err}

pub data StakeStatus : Type 0 where
  locked released slashed : StakeStatus

abbrev pub is_locked : StakeStatus → Bool
is_locked locked = true
is_locked _ = false

pub record Stake : Type 0 where
  pub stake_version : String
  pub stake_id : String
  pub agent_id : String
  pub amount : ℤ
  pub currency : String
  pub purpose : String
  pub exchange_id : Option String
  pub vdc_id : Option String
  pub status : StakeStatus
  pub locked_at : String
  pub released_at : Option String
  pub slashed_at : Option String
  pub slash_reason : Option String
  pub slashed_by : Option String

pub data StakeError : Type 0 where
  not_enabled unknown_stake not_locked : StakeError
  invalid : List String → StakeError

-- `_store` and `_stakes`
pub record Stakes : Type 0 where
  pub store : Option (Dict Stake)
  pub cache : Dict Stake

abbrev pub missing : String → String → List String → List String
missing name value rest = if value == "" then name ∷ rest else rest

-- `validate_stake_lock`; the status is one of the three by its type
unfoldable pub validate_stake_lock : String → Stake → List String
validate_stake_lock version d = missing "stake_version" d.stake_version (
    missing "stake_id" d.stake_id (
      missing "agent_id" d.agent_id (
        missing "currency" d.currency (
          missing "purpose" d.purpose (
            missing "locked_at" d.locked_at (
              (if d.stake_version == version then [] else "version" ∷ [])
              ++ (if ltb_ℤ d.amount (pos 0) then "amount" ∷ [] else [])))))))

unfoldable pub persist : Stake → Stakes → Stakes
persist d s = record {
  store = elim s.store [ none ↦ none | some t ↦ some (put t d.stake_id d) ];
  cache = put s.cache d.stake_id d;
}

-- `_load`: what the store has goes into the cache
unfoldable pub peek : String → Stakes → Option Stake
peek stake_id s = elim s.store [
  | none ↦ get s.cache stake_id
  | some t ↦ elim (get t stake_id) [ none ↦ get s.cache stake_id | some d ↦ some d ]
]

unfoldable pub load_stake : String → Stakes → Option Stake × Stakes
load_stake stake_id s = elim s.store [
  | none ↦ (get s.cache stake_id, s)
  | some t ↦ elim (get t stake_id) [
    | none ↦ (get s.cache stake_id, s)
    | some d ↦ (some d, record s { cache = put s.cache stake_id d })
  ]
]

abbrev pub is_text : Option String → String → Bool
is_text none t = false
is_text (some s) t = s == t

-- `find_locked_stake` looks in the store and then in the cache.
unfoldable pub first_locked : String → String → List Stake → Option Stake
first_locked agent_id exchange_id [] = none
first_locked agent_id exchange_id (d ∷ ds) =
    let rest = first_locked agent_id exchange_id ds in
    if d.agent_id == agent_id && (is_text d.exchange_id exchange_id && is_locked d.status)
    then some d
    else rest

unfoldable pub find_locked_stake : String → String → Stakes → Option Stake
find_locked_stake agent_id exchange_id s =
    let cached = first_locked agent_id exchange_id (values s.cache) in
    elim s.store [
      | none ↦ cached
      | some t ↦ elim (first_locked agent_id exchange_id (values t)) [
        | none ↦ cached
        | some d ↦ some d
      ]
    ]

unfoldable pub count_locked : String → List Stake → ℕ
count_locked agent_id [] = 0
count_locked agent_id (d ∷ ds) =
    let rest = count_locked agent_id ds in
    if d.agent_id == agent_id && is_locked d.status then 1 + rest else rest

-- A store that is bound is counted alone.
unfoldable pub count_locked_stakes : String → Stakes → ℕ
count_locked_stakes agent_id s = elim s.store [
  | none ↦ count_locked agent_id (values s.cache)
  | some t ↦ count_locked agent_id (values t)
]

unfoldable pub bind_stake_store : Option (Dict Stake) → Stakes → Stakes
bind_stake_store store s = record s { store = store }

-- `reset_stakes_for_tests`
unfoldable pub reset_stakes : Stakes → Stakes
reset_stakes s = record s { cache = [] }

module _ (enabled : Bool) (version now : String) where
  -- `lock_stake`; `d` is what `build_stake_lock` makes of the arguments
  unfoldable pub lock_stake : Stake → Stakes → Result StakeError Stake × Stakes
  lock_stake d s =
      let built = record d {
        stake_version = version;
        status = locked;
        locked_at = now;
        released_at = none;
        slashed_at = none;
        slash_reason = none;
        slashed_by = none;
      } in
      if enabled
      then elim (validate_stake_lock version built) [
        | [] ↦ (ok built, persist built s)
        | e ∷ es ↦ (err (invalid (e ∷ es)), s)
      ]
      else (err not_enabled, s)

  -- `release_stake`, once the stake was looked up
  unfoldable pub release_found : Option Stake → Stakes → Result StakeError Stake × Stakes
  release_found none t = (err unknown_stake, t)
  release_found (some d) t =
      let out = record d { status = released; released_at = some now } in
      if is_locked d.status then (ok out, persist out t) else (err not_locked, t)

  unfoldable pub release_stake : String → Stakes → Result StakeError Stake × Stakes
  release_stake stake_id s =
      let (found, t) = load_stake stake_id s in
      if enabled then release_found found t else (err not_enabled, s)

  -- `slash_stake_record`, which does not look at the status
  unfoldable pub slash_stake_record :
      Stake → String → String → Stakes → Result StakeError Stake × Stakes
  slash_stake_record stake reason by s =
      let (found, t) = load_stake stake.stake_id s in
      let base = or_else found stake in
      let out = record base {
        status = slashed;
        slashed_at = some now;
        slash_reason = some reason;
        slashed_by = some by;
      } in
      if enabled
      then elim (validate_stake_lock version stake) [
        | [] ↦ (ok out, persist out t)
        | e ∷ es ↦ (err (invalid (e ∷ es)), s)
      ]
      else (err not_enabled, s)

-- What a caller does; the argument of a lock is the stake that it asks for.
pub data StakeCall : Type 0 where
  lock : Stake → StakeCall
  release : String → StakeCall
  slash : Stake → String → String → StakeCall

module _ (enabled : Bool) (version now : String) where
  pub serve_stake : StakeCall → Stakes → Stakes
  serve_stake (lock d) s = (lock_stake enabled version now d s).1
  serve_stake (release k) s = (release_stake enabled version now k s).1
  serve_stake (slash d reason by) s = (slash_stake_record enabled version now d reason by s).1

  pub serve_stakes : List StakeCall → Stakes → Stakes
  serve_stakes [] s = s
  serve_stakes (c ∷ cs) s = serve_stakes cs (serve_stake c s)
