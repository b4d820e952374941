-- ===== src/Tests/Stakes.antt =====
-- The theorem on stakes, on a stake that was released.
use novapanda.Base.{String, none, some, [], ◌∷◌, refl, true}
use novapanda.Base.Int.{pos}
use novapanda.Base.Dict.{get}
use novapanda.Stakes.{Stake, released, Stakes, peek, lock, release, slash, serve_stakes}
use novapanda.Stakes.Closed.{IsClosed, ended_stake-stays}

abbrev stake : String → Stake
stake name = record {
  stake_version = "2";
  stake_id = name;
  agent_id = "p";
  amount = pos 5;
  currency = "USD";
  purpose = "exchange";
  exchange_id = some "ex";
  vdc_id = none;
  status = released;
  locked_at = "t";
  released_at = some "t";
  slashed_at = none;
  slash_reason = none;
  slashed_by = none;
}

abbrev stakes : Stakes
stakes = record { store = some (("old", stake "old") ∷ []); cache = [] }

old-IsClosed : IsClosed "old" stakes
unfolding peek get
old-IsClosed = (stake "old", refl, refl)

ended_stake-stays_example : IsClosed "old" (
    serve_stakes true "2" "t"
      (lock (stake "new") ∷ release "old" ∷ slash (stake "old") "late" "c" ∷ [])
      stakes)
ended_stake-stays_example =
    ended_stake-stays "2" "t" "old" true
      (lock (stake "new") ∷ release "old" ∷ slash (stake "old") "late" "c" ∷ []) stakes
      (refl, (tt, (tt, tt))) old-IsClosed
