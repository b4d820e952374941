-- ===== src/Settlement/Mock.antt =====
-- `MockSettlement` of novapanda/settlement.py: holds in memory, each of which is settled or
-- refunded once. The n-th text that `uuid4` gives is a parameter.
pub mod Holds
use Prim.Native.String.{◌++◌ as str_append}
use novapanda.Base.{ℕ, ◌+◌, String, Bool, Option, none, some, List, [], ◌∷◌, eqb, if◌then◌else◌}
use novapanda.Base.Int.{ℤ, pos, ltb_ℤ}
use novapanda.Base.Dict.{Dict, get, put}
use novapanda.Base.Exec.{
  Result, ok, err, Exec, pure, raise, gets, or_raise, raise_if, modify, continue, ◌>>=◌, ◌>>◌,
}
use novapanda.Settlement.Contract.{
  SettlementError, negative_amount, unknown_handle, conflict, Status, held, settled, refunded,
  Receipt, Adapter,
}

pub record Hold : Type 0 where
  pub exchange_id : String
  pub amount : ℤ
  pub currency : String
  pub status : Status

-- `drawn` counts the handles that were made.
pub record MockSettlement : Type 0 where
  pub holds : Dict Hold
  pub drawn : ℕ

abbrev pub status_index : Status → ℕ
status_index held = 0
status_index settled = 1
status_index refunded = 2

abbrev pub same_status : Status → Status → Bool
same_status s t = eqb (status_index s) (status_index t)

abbrev pub receipt : String → Hold → Receipt
receipt handle h = record {
  handle = handle;
  status = h.status;
  amount = h.amount;
  currency = h.currency;
  rail = "mock";
}

abbrev set_hold : String → Hold → MockSettlement → MockSettlement
set_hold handle h s = record s { holds = put s.holds handle h }

-- `_transition`, once the hold is found
move_hold : String → Status → Hold → Exec MockSettlement SettlementError Receipt
move_hold handle target h =
    if same_status h.status target
    then pure (receipt handle h)
    else if same_status h.status held
    then (do
      modify (set_hold handle (record h { status = target }))
      pure (receipt handle (record h { status = target })))
    else raise conflict

unfoldable pub transition_hold : String → Status → Exec MockSettlement SettlementError Receipt
unfolding move_hold
transition_hold handle target = do
  h ← or_raise (← gets (λ s. get s.holds handle)) unknown_handle
  move_hold handle target h

module _ (uuid : ℕ → String) where
  abbrev new_handle : MockSettlement → String
  new_handle s = str_append "mock-escrow-" (uuid s.drawn)

  abbrev open_hold : Hold → MockSettlement → MockSettlement
  open_hold h s = record { holds = put s.holds (new_handle s) h; drawn = s.drawn + 1 }

  unfoldable pub escrow_hold : String → ℤ → String → Exec MockSettlement SettlementError String
  escrow_hold exchange_id amount currency = do
    raise_if (ltb_ℤ amount (pos 0)) negative_amount
    handle ← gets new_handle
    modify (
        open_hold (record {
          exchange_id = exchange_id;
          amount = amount;
          currency = currency;
          status = held;
        }))
    pure handle

  abbrev pub mock_settlement : Adapter MockSettlement
  mock_settlement = record {
    rail = "mock";
    escrow = escrow_hold;
    settle = λ handle. transition_hold handle settled;
    refund = λ handle. transition_hold handle refunded;
  }
