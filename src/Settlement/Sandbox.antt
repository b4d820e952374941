-- ===== src/Settlement/Sandbox.antt =====
-- `SandboxSettlement` and `S1HttpSandboxSettlement` of novapanda/settlement.py, which put the name of
-- the sandbox rail on the receipts of another adapter. The fields of their receipts that only say so
-- in other words are left out, as in the other receipts.
use novapanda.Base.{ℕ, String, ◌≡◌, refl, inl, inr}
use novapanda.Base.Exec.{ok, err, Exec, pure, ◌>>=◌, bind-ok, bind-err}
use novapanda.Settlement.Contract.{SettlementError, Receipt, Adapter, IsLawful}
use novapanda.Settlement.Mock.{MockSettlement, mock_settlement}
use novapanda.Settlement.Mock.Holds.{mock_settlement-IsLawful}
use novapanda.Settlement.Gateway.{PaymentGateway, gateway_settlement}
use novapanda.Settlement.Gateway.Laws.{IsReplayable, gateway_settlement-IsLawful}

-- `_wrap` of `SandboxSettlement`
abbrev pub wrap : String → Receipt → Receipt
wrap rail r = record r { rail = rail }

-- `_wrap` of `S1HttpSandboxSettlement`, whose receipt has the handle that was asked for
abbrev pub wrap_handle : String → String → Receipt → Receipt
wrap_handle rail handle r = record r { rail = rail; handle = handle }

unfoldable pub relabelled :
    {S : Type 0}
    → (Receipt → Receipt)
    → Exec S SettlementError Receipt
    → Exec S SettlementError Receipt
relabelled w m = do r ← m; pure (w r)

abbrev pub relabel : {S : Type 0} → String → (String → Receipt → Receipt) → Adapter S → Adapter S
relabel rail w a = record {
  rail = rail;
  escrow = a.escrow;
  settle = λ handle. relabelled (w handle) (a.settle handle);
  refund = λ handle. relabelled (w handle) (a.refund handle);
}

abbrev pub sandbox_rail : String
sandbox_rail = "fiat-s1-sandbox"

abbrev pub sandbox_settlement : (ℕ → String) → Adapter MockSettlement
sandbox_settlement uuid = relabel sandbox_rail (λ _. wrap sandbox_rail) (mock_settlement uuid)

abbrev pub s1_http_sandbox_settlement : {S : Type 0} → PaymentGateway S → Adapter S
s1_http_sandbox_settlement g =
    relabel sandbox_rail (wrap_handle sandbox_rail) (gateway_settlement sandbox_rail g)

module _ {S : Type 0} (w : Receipt → Receipt) (m : Exec S SettlementError Receipt) where
  relabelled-ok :
      (s s' : S) (q : Receipt)
      → relabelled w m s ≡ (ok q, s')
      → (r : Receipt) × (m s ≡ (ok r, s')) × (q ≡ w r)
  unfolding relabelled ◌>>=◌
  relabelled-ok s s' q e =
      let (r, u, first, rest) = bind-ok m (λ x. pure (w x)) s e in (r, cc (first, rest), cc)

  relabelled-again :
      (s s' : S) (q : Receipt)
      → ((r : Receipt) → m s ≡ (ok r, s') → m s' ≡ (ok r, s'))
      → relabelled w m s ≡ (ok q, s')
      → relabelled w m s' ≡ (ok q, s')
  unfolding relabelled ◌>>=◌
  relabelled-again s s' q again e =
      let (r, first, is) = relabelled-ok s s' q e in rw (again r first, is) refl

  relabelled-failed :
      (s s' : S) (x : SettlementError)
      → ((y : SettlementError) → m s ≡ (err y, s') → s' ≡ s)
      → relabelled w m s ≡ (err x, s')
      → s' ≡ s
  unfolding relabelled ◌>>=◌
  relabelled-failed s s' x failed e = elim (bind-err m (λ y. pure (w y)) s e) [
    | inl first ↦ failed x first
    | inr (r, u, first, rest) ↦ cc
  ]

relabel-IsLawful :
    {S : Type 0} (rail : String) (w : String → Receipt → Receipt) (a : Adapter S)
    → IsLawful a
    → IsLawful (relabel rail w a)
relabel-IsLawful rail w a l = record {
  settle_again =
      λ h s s' r. relabelled-again (w h) (a.settle h) s s' r (λ q. l.settle_again h s s' q);
  refund_again =
      λ h s s' r. relabelled-again (w h) (a.refund h) s s' r (λ q. l.refund_again h s s' q);
  settle_failed =
      λ h s s' x. relabelled-failed (w h) (a.settle h) s s' x (λ y. l.settle_failed h s s' y);
  refund_failed =
      λ h s s' x. relabelled-failed (w h) (a.refund h) s s' x (λ y. l.refund_failed h s s' y);
  settled_not_refunded = λ h s s' t r q e f.
      let (r', first, _) = relabelled-ok (w h) (a.settle h) s s' r e in
      let (q', second, _) = relabelled-ok (w h) (a.refund h) s' t q f in
      l.settled_not_refunded h s s' t r' q' first second;
  refunded_not_settled = λ h s s' t r q e f.
      let (r', first, _) = relabelled-ok (w h) (a.refund h) s s' r e in
      let (q', second, _) = relabelled-ok (w h) (a.settle h) s' t q f in
      l.refunded_not_settled h s s' t r' q' first second;
}

-- Both sandbox rails meet the contract of a settlement adapter, the one over HTTP where the captures
-- and voids of its gateway can be replayed and exclude each other.
sandboxes-IsLawful :
    {S : Type 0} (uuid : ℕ → String) (g : PaymentGateway S)
    → IsReplayable g
    → IsLawful (sandbox_settlement uuid) × IsLawful (s1_http_sandbox_settlement g)
sandboxes-IsLawful uuid g r = (
  relabel-IsLawful sandbox_rail (λ _. wrap sandbox_rail) (mock_settlement uuid)
      (mock_settlement-IsLawful uuid),
  relabel-IsLawful sandbox_rail (wrap_handle sandbox_rail) (gateway_settlement sandbox_rail g)
      (gateway_settlement-IsLawful sandbox_rail g r),
)
