-- ===== src/Settlement/Contract.antt =====
-- `SettlementAdapter` of novapanda/settlement.py, its errors and receipts, and its contract.
use novapanda.Base.{String, ◌≡◌, ◌≢◌}
use novapanda.Base.Int.{ℤ}
use novapanda.Base.Exec.{ok, err, Exec}

-- `not_paid` is of a rail whose ledger refused.
pub data SettlementError : Type 0 where
  negative_amount unknown_handle conflict not_paid : SettlementError

-- The status of a hold and of a receipt.
pub data Status : Type 0 where
  held settled refunded : Status

-- The fields of a receipt that the engine or a theorem reads; `rail` is "" where the dict has none.
pub record Receipt : Type 0 where
  pub handle : String
  pub status : Status
  pub amount : ℤ
  pub currency : String
  pub rail : String

-- `SettlementAdapter`, over the state `S` of the rail.
pub record Adapter (S : Type 0) : Type 0 where
  pub rail : String
  pub escrow : String → ℤ → String → Exec S SettlementError String
  pub settle : String → Exec S SettlementError Receipt
  pub refund : String → Exec S SettlementError Receipt

-- The contract that capture-before-execute relies on: what succeeded succeeds again with the same
-- receipt and without an effect, what failed had no effect, and a hold goes one way only.
pub record IsLawful {S : Type 0} (a : Adapter S) : Type 0 where
  pub settle_again :
      (h : String) (s s' : S) (r : Receipt) → a.settle h s ≡ (ok r, s') → a.settle h s' ≡ (ok r, s')
  pub refund_again :
      (h : String) (s s' : S) (r : Receipt) → a.refund h s ≡ (ok r, s') → a.refund h s' ≡ (ok r, s')
  pub settle_failed :
      (h : String) (s s' : S) (e : SettlementError) → a.settle h s ≡ (err e, s') → s' ≡ s
  pub refund_failed :
      (h : String) (s s' : S) (e : SettlementError) → a.refund h s ≡ (err e, s') → s' ≡ s
  pub settled_not_refunded :
      (h : String) (s s' t : S) (r q : Receipt)
      → a.settle h s ≡ (ok r, s')
      → a.refund h s' ≢ (ok q, t)
  pub refunded_not_settled :
      (h : String) (s s' t : S) (r q : Receipt)
      → a.refund h s ≡ (ok r, s')
      → a.settle h s' ≢ (ok q, t)
