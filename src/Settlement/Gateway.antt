-- ===== src/Settlement/Gateway.antt =====
-- `GatewaySettlement` of novapanda/settlement.py with its subclasses, over any payment gateway,
-- and the gateway in memory, `FakeGateway`.
pub mod Laws
use Prim.Native.String.{◌++◌ as str_append}
use novapanda.Base.{ℕ, ◌+◌, String, Bool, not, ◌||◌, Option, none, some, eqb, if◌then◌else◌}
use novapanda.Base.Int.{ℤ, pos, ltb_ℤ}
use novapanda.Base.Dict.{Dict, get, put}
use novapanda.Base.Exec.{
  Result, ok, err, Exec, pure, raise, gets, or_raise, raise_if, modify, continue, ◌>>=◌, ◌>>◌,
}
use novapanda.Settlement.Contract.{
  SettlementError, negative_amount, unknown_handle, conflict, Status, settled, refunded, Receipt,
  Adapter,
}

-- What `capture` and `void` return, as far as the receipts carry it: the other members of the
-- dictionary that a gateway may return are left out.
pub record Capture : Type 0 where
  pub handle : String
  pub amount : ℤ
  pub currency : String

-- `PaymentGateway`, over the state `S` of the payment rail.
pub record PaymentGateway (S : Type 0) : Type 0 where
  pub authorize : String → ℤ → String → Exec S SettlementError String
  pub capture : String → Exec S SettlementError Capture
  pub void : String → Exec S SettlementError Capture

abbrev receipt_of : String → Status → Capture → Receipt
receipt_of rail status c = record {
  handle = c.handle;
  status = status;
  amount = c.amount;
  currency = c.currency;
  rail = rail;
}

module _ {S : Type 0} where
  unfoldable pub gateway_escrow :
      PaymentGateway S → String → ℤ → String → Exec S SettlementError String
  gateway_escrow g exchange_id amount currency = do
    raise_if (ltb_ℤ amount (pos 0)) negative_amount
    g.authorize exchange_id amount currency

  unfoldable pub gateway_settle :
      String → PaymentGateway S → String → Exec S SettlementError Receipt
  gateway_settle rail g handle = do c ← g.capture handle; pure (receipt_of rail settled c)

  unfoldable pub gateway_refund :
      String → PaymentGateway S → String → Exec S SettlementError Receipt
  gateway_refund rail g handle = do c ← g.void handle; pure (receipt_of rail refunded c)

  abbrev pub gateway_settlement : String → PaymentGateway S → Adapter S
  gateway_settlement rail g = record {
    rail = rail;
    escrow = gateway_escrow g;
    settle = gateway_settle rail g;
    refund = gateway_refund rail g;
  }

  abbrev pub x402_settlement : PaymentGateway S → Adapter S
  x402_settlement = gateway_settlement "x402"

  abbrev pub ap2_settlement : PaymentGateway S → Adapter S
  ap2_settlement = gateway_settlement "ap2"

  abbrev pub fiat_settlement : PaymentGateway S → Adapter S
  fiat_settlement = gateway_settlement "fiat"

-- The state of a reference at the gateway.
pub data RefState : Type 0 where
  authorized captured voided : RefState

pub record Ref : Type 0 where
  pub exchange_id : String
  pub amount : ℤ
  pub currency : String
  pub state : RefState

pub record FakeGateway : Type 0 where
  pub refs : Dict Ref
  pub drawn : ℕ

abbrev ref_index : RefState → ℕ
ref_index authorized = 0
ref_index captured = 1
ref_index voided = 2

abbrev same_ref : RefState → RefState → Bool
same_ref s t = eqb (ref_index s) (ref_index t)

abbrev set_ref : String → Ref → FakeGateway → FakeGateway
set_ref ref r s = record s { refs = put s.refs ref r }

-- `_move`, once the reference is found
unfoldable pub move_ref : String → RefState → Ref → Exec FakeGateway SettlementError Capture
move_ref ref target r = do
  raise_if (not (same_ref r.state target || same_ref r.state authorized)) conflict
  modify (set_ref ref (record r { state = target }))
  pure (record { handle = ref; amount = r.amount; currency = r.currency })

unfoldable pub move : String → RefState → Exec FakeGateway SettlementError Capture
unfolding move_ref
move ref target = do
  r ← or_raise (← gets (λ s. get s.refs ref)) unknown_handle
  move_ref ref target r

module _ (uuid : ℕ → String) where
  abbrev new_ref : FakeGateway → String
  new_ref s = str_append "auth-" (uuid s.drawn)

  abbrev open_ref : Ref → FakeGateway → FakeGateway
  open_ref r s = record { refs = put s.refs (new_ref s) r; drawn = s.drawn + 1 }

  unfoldable pub authorize : String → ℤ → String → Exec FakeGateway SettlementError String
  authorize exchange_id amount currency = do
    ref ← gets new_ref
    modify (
        open_ref (record {
          exchange_id = exchange_id;
          amount = amount;
          currency = currency;
          state = authorized;
        }))
    pure ref

  abbrev pub fake_gateway : PaymentGateway FakeGateway
  fake_gateway = record {
    authorize = authorize;
    capture = λ ref. move ref captured;
    void = λ ref. move ref voided;
  }
