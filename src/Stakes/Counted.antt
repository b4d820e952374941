-- ===== src/Stakes/Counted.antt =====
-- What `find_locked_stake` and `count_locked_stakes` of novapanda/v2/stake.py say of one another.
use novapanda.Base.{
  ◌≤◌, String, ◌≡◌, none, some, List, [], ◌∷◌, ◌&&◌, ◌==◌, arith, Bool-cases, inl, inr,
}
use novapanda.Base.Dict.{values}
use novapanda.Stakes.{
  Stake, Stakes, is_locked, is_text, first_locked, find_locked_stake, count_locked,
  count_locked_stakes,
}

first_locked-counted :
    (agent_id exchange_id : String) (ds : List Stake) (d : Stake)
    → first_locked agent_id exchange_id ds ≡ some d
    → 1 ≤ count_locked agent_id ds
unfolding first_locked count_locked
first_locked-counted agent_id exchange_id [] d e = absurd (cc e)
first_locked-counted agent_id exchange_id (x ∷ ds) d e =
    elim (Bool-cases
      (x.agent_id == agent_id && (is_text x.exchange_id exchange_id && is_locked x.status))) [
        | inl here ↦ ground (arith, here)
        | inr other ↦ ground (arith, first_locked-counted agent_id exchange_id ds d (rw other at e))
      ]

-- Where no store is bound, an agent with a locked stake on an exchange has a count above zero.
find_locked_stake-counted :
    (agent_id exchange_id : String) (s : Stakes) (d : Stake)
    → s.store ≡ none
    → find_locked_stake agent_id exchange_id s ≡ some d
    → 1 ≤ count_locked_stakes agent_id s
unfolding find_locked_stake count_locked_stakes
find_locked_stake-counted agent_id exchange_id s d unbound e =
    rw (unbound, count_locked_stakes)
      (first_locked-counted agent_id exchange_id (values s.cache) d
        (rw (unbound, find_locked_stake) at e))
