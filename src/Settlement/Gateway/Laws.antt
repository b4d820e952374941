-- ===== src/Settlement/Gateway/Laws.antt =====
-- `GatewaySettlement` over `FakeGateway`, and over every payment gateway whose captures and voids can
-- be replayed and exclude each other.
use novapanda.Base.{ℕ, String, false, some, ◌≡◌, ◌≢◌, refl, inl, inr, arith, eq_refl}
use novapanda.Base.Dict.{get, put, get-put, put_again}
use novapanda.Base.Int.{ℤ, pos, ltb_ℤ}
use novapanda.Base.Exec.{◌>>=◌, ok, err, pure, bind-ok, bind-err}
use novapanda.Settlement.Contract.{
  SettlementError, conflict, Status, settled, refunded, Receipt, IsLawful,
}
use novapanda.Settlement.Gateway.{
  Capture, PaymentGateway, gateway_escrow, gateway_settle, gateway_refund, gateway_settlement,
  receipt_of, RefState, Ref, authorized, captured, voided, FakeGateway, authorize, move_ref, move,
  fake_gateway,
}

pub record IsReplayable {S : Type 0} (g : PaymentGateway S) : Type 0 where
  pub capture_again :
      (h : String) (s s' : S) (c : Capture)
      → g.capture h s ≡ (ok c, s')
      → g.capture h s' ≡ (ok c, s')
  pub void_again :
      (h : String) (s s' : S) (c : Capture) → g.void h s ≡ (ok c, s') → g.void h s' ≡ (ok c, s')
  pub capture_failed :
      (h : String) (s s' : S) (e : SettlementError) → g.capture h s ≡ (err e, s') → s' ≡ s
  pub void_failed :
      (h : String) (s s' : S) (e : SettlementError) → g.void h s ≡ (err e, s') → s' ≡ s
  pub captured_not_voided :
      (h : String) (s s' t : S) (c d : Capture)
      → g.capture h s ≡ (ok c, s')
      → g.void h s' ≢ (ok d, t)
  pub voided_not_captured :
      (h : String) (s s' t : S) (c d : Capture)
      → g.void h s ≡ (ok c, s')
      → g.capture h s' ≢ (ok d, t)

module _ (h : String) (s s' : FakeGateway) where
  move_again :
      (target : RefState) (c : Capture)
      → move h target s ≡ (ok c, s')
      → move h target s' ≡ (ok c, s')
  unfolding move ◌>>=◌
  move_again target c e = grind (arith, get-put, put_again, eq_refl)

  move_failed : (target : RefState) (e : SettlementError) → move h target s ≡ (err e, s') → s' ≡ s
  unfolding move ◌>>=◌
  move_failed target e p = ground arith

module _ (h : String) (s s' t : FakeGateway) (c d : Capture) where
  capture_excludes_void : move h captured s ≡ (ok c, s') → move h voided s' ≢ (ok d, t)
  unfolding move ◌>>=◌
  capture_excludes_void e p = grind (arith, get-put, eq_refl)

  void_excludes_capture : move h voided s ≡ (ok c, s') → move h captured s' ≢ (ok d, t)
  unfolding move ◌>>=◌
  void_excludes_capture e p = grind (arith, get-put, eq_refl)

-- `FakeGateway` is such a gateway, whatever ids it draws: a capture or a void that succeeded succeeds
-- again with the same answer and no effect, one that failed had no effect, and a reference is never
-- both captured and voided.
fake_gateway-IsReplayable : (uuid : ℕ → String) → IsReplayable (fake_gateway uuid)
fake_gateway-IsReplayable uuid = record {
  capture_again = λ h s s'. move_again h s s' captured;
  void_again = λ h s s'. move_again h s s' voided;
  capture_failed = λ h s s'. move_failed h s s' captured;
  void_failed = λ h s s'. move_failed h s s' voided;
  captured_not_voided = capture_excludes_void;
  voided_not_captured = void_excludes_capture;
}

module _ {S : Type 0} (rail : String) (g : PaymentGateway S) (r : IsReplayable g) (h : String) where
  captured_of_settle :
      (s s' : S) (q : Receipt)
      → gateway_settle rail g h s ≡ (ok q, s')
      → (c : Capture) × (g.capture h s ≡ (ok c, s')) × (q ≡ receipt_of rail settled c)
  unfolding gateway_settle ◌>>=◌
  captured_of_settle s s' q e =
      let (c, u, first, rest) = bind-ok (g.capture h) (λ c. pure (receipt_of rail settled c)) s e in
      (c, cc, cc)

  voided_of_refund :
      (s s' : S) (q : Receipt)
      → gateway_refund rail g h s ≡ (ok q, s')
      → (c : Capture) × (g.void h s ≡ (ok c, s')) × (q ≡ receipt_of rail refunded c)
  unfolding gateway_refund ◌>>=◌
  voided_of_refund s s' q e =
      let (c, u, first, rest) = bind-ok (g.void h) (λ c. pure (receipt_of rail refunded c)) s e in
      (c, cc, cc)

  settle_again :
      (s s' : S) (q : Receipt)
      → gateway_settle rail g h s ≡ (ok q, s')
      → gateway_settle rail g h s' ≡ (ok q, s')
  unfolding gateway_settle ◌>>=◌
  settle_again s s' q e =
      let (c, captured_at, is) = captured_of_settle s s' q e in
      rw (r.capture_again h s s' c captured_at, is)

  refund_again :
      (s s' : S) (q : Receipt)
      → gateway_refund rail g h s ≡ (ok q, s')
      → gateway_refund rail g h s' ≡ (ok q, s')
  unfolding gateway_refund ◌>>=◌
  refund_again s s' q e =
      let (c, voided_at, is) = voided_of_refund s s' q e in rw (r.void_again h s s' c voided_at, is)

  settle_failed :
      (s s' : S) (e : SettlementError) → gateway_settle rail g h s ≡ (err e, s') → s' ≡ s
  unfolding gateway_settle ◌>>=◌
  settle_failed s s' e p =
      elim (bind-err (g.capture h) (λ c. pure (receipt_of rail settled c)) s p) [
        | inl first ↦ r.capture_failed h s s' e first
        | inr (c, u, first, rest) ↦ cc
      ]

  refund_failed :
      (s s' : S) (e : SettlementError) → gateway_refund rail g h s ≡ (err e, s') → s' ≡ s
  unfolding gateway_refund ◌>>=◌
  refund_failed s s' e p = elim (bind-err (g.void h) (λ c. pure (receipt_of rail refunded c)) s p) [
    | inl first ↦ r.void_failed h s s' e first
    | inr (c, u, first, rest) ↦ cc
  ]

  settled_not_refunded :
      (s s' t : S) (q p : Receipt)
      → gateway_settle rail g h s ≡ (ok q, s')
      → gateway_refund rail g h s' ≢ (ok p, t)
  settled_not_refunded s s' t q p e f =
      let (c, captured_at, _) = captured_of_settle s s' q e in
      let (d, voided_at, _) = voided_of_refund s' t p f in
      r.captured_not_voided h s s' t c d captured_at voided_at

  refunded_not_settled :
      (s s' t : S) (q p : Receipt)
      → gateway_refund rail g h s ≡ (ok q, s')
      → gateway_settle rail g h s' ≢ (ok p, t)
  refunded_not_settled s s' t q p e f =
      let (c, voided_at, _) = voided_of_refund s s' q e in
      let (d, captured_at, _) = captured_of_settle s' t p f in
      r.voided_not_captured h s s' t c d voided_at captured_at

-- A gateway whose captures and voids can be replayed and exclude each other makes, on any rail, an
-- adapter that meets the contract of settlement.
pub gateway_settlement-IsLawful :
    {S : Type 0} (rail : String) (g : PaymentGateway S)
    → IsReplayable g
    → IsLawful (gateway_settlement rail g)
gateway_settlement-IsLawful rail g r = record {
  settle_again = settle_again rail g r;
  refund_again = refund_again rail g r;
  settle_failed = settle_failed rail g r;
  refund_failed = refund_failed rail g r;
  settled_not_refunded = settled_not_refunded rail g r;
  refunded_not_settled = refunded_not_settled rail g r;
}

-- A reference as `authorize` makes it, and the gateway once it has moved.
abbrev pub opened : String → ℤ → String → Ref
opened x amount currency = record {
  exchange_id = x;
  amount = amount;
  currency = currency;
  state = authorized;
}

abbrev pub closed_ref :
    (ref exchange_id : String) → ℤ → String → FakeGateway → RefState → FakeGateway
closed_ref ref x amount currency s state = record s {
  refs = put s.refs ref (record (opened x amount currency) { state = state });
}

-- The receipt that a closed reference has.
abbrev pub receipt_for : (rail ref : String) → ℤ → (currency : String) → Status → Receipt
receipt_for rail ref amount currency status = record {
  handle = ref;
  status = status;
  amount = amount;
  currency = currency;
  rail = rail;
}

-- Once the escrow over the gateway in memory, in any state, has given a handle: the amount is
-- not below zero. `settle` on the handle captures it and `refund` voids it, each returns the receipt of
-- the escrowed amount with the status settled or refunded and the name of the rail, and after one of
-- the two the other raises a conflict and changes nothing.
pub gateway_escrow-closes :
    (uuid : ℕ → String) (rail exchange_id : String) (amount : ℤ) (currency ref : String)
    (s t : FakeGateway)
    → gateway_escrow (fake_gateway uuid) exchange_id amount currency s ≡ (ok ref, t)
    → let g = fake_gateway uuid in
      let closed = closed_ref ref exchange_id amount currency t in
      (ltb_ℤ amount (pos 0) ≡ false)
      × (gateway_settle rail g ref t
          ≡ (ok (receipt_for rail ref amount currency settled), closed captured))
      × (gateway_refund rail g ref t
          ≡ (ok (receipt_for rail ref amount currency refunded), closed voided))
      × (gateway_refund rail g ref (closed captured) ≡ (err conflict, closed captured))
      × (gateway_settle rail g ref (closed voided) ≡ (err conflict, closed voided))
unfolding gateway_escrow gateway_settle gateway_refund authorize move ◌>>=◌ move_ref
gateway_escrow-closes uuid rail x amount currency ref s t e =
    let found : get t.refs ref ≡ some (opened x amount currency) =
      grind (arith, get-put, eq_refl) in
    (
      ground arith,
      rw found refl,
      rw found refl,
      grind (arith, get-put, eq_refl),
      grind (arith, get-put, eq_refl),
    )
