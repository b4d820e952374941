-- ===== src/Wallet/Bridge/Adapter.antt =====
-- `WalletBackedSettlement` of novapanda/wallet/settlement_bridge.py as a rail of the engine.
use mathlib.Core.Logic.{∥∥₁_map, ∥∥₁_prop}
use mathlib.Core.HLevel.{Σ_prop_path}
use novapanda.Base.{ℕ, ◌+◌, String, Bool, true, false, not, ◌≡◌, ◌≢◌, refl, sym, ap}
use novapanda.Base.Int.{ℤ}
use novapanda.Base.Exec.{Result, ok, err, Exec}
use novapanda.Settlement.Contract.{
  SettlementError, negative_amount, unknown_handle, conflict, not_paid, Receipt, Adapter, IsLawful,
}
use novapanda.Wallet.Bridge.{
  BridgeConfig, WalletBackedSettlement, BridgeError, negative_escrow, unknown_escrow,
  escrow_conflict, vault_underfunded, from_wallet, escrow, release,
}
use novapanda.Wallet.Bridge.Covered.{Kept}
use novapanda.Wallet.Bridge.Payments.{escrow-Kept, release-Kept}
use novapanda.Wallet.Bridge.Releases.{release-again, release-excludes, release-failed}

-- The bridge raises all of its errors as `SettlementError`.
abbrev error_of : BridgeError → SettlementError
error_of negative_escrow = negative_amount
error_of unknown_escrow = unknown_handle
error_of escrow_conflict = conflict
error_of vault_underfunded = not_paid
error_of (from_wallet _) = not_paid

abbrev as_settlement : {A : Type 0} → Result BridgeError A → Result SettlementError A
as_settlement (ok a) = ok a
as_settlement (err e) = err (error_of e)

module _ (sha256 : String → String) (c : BridgeConfig) (uuid : ℕ → String) where
  -- A bridge whose vaults cover what they hold, with the number of ids that were drawn. How the vaults
  -- came to cover it is forgotten.
  abbrev pub WalletRail : Type 0
  WalletRail = (p : ℕ × WalletBackedSettlement) × ∥ Kept sha256 c p.1 ∥₁

  -- The id of a transaction is not kept, so it is not counted.
  abbrev release_on : String → Bool → Exec WalletRail SettlementError Receipt
  release_on h b ((n, s), k) =
      let out = release sha256 c (uuid n) h b s in
      (as_settlement out.0, ((n, out.1), ∥∥₁_map k (release-Kept sha256 c (uuid n) h b s)))

  -- the handle and the transaction each take an id
  abbrev escrow_on : String → ℤ → String → Exec WalletRail SettlementError String
  escrow_on exchange_id amount currency ((n, s), k) =
      let out = escrow sha256 c (uuid n) (uuid (n + 1)) exchange_id amount currency s in
      (
        as_settlement out.0,
        (
          (n + 2, out.1),
          ∥∥₁_map k (escrow-Kept sha256 c (uuid n) (uuid (n + 1)) exchange_id amount currency s),
        ),
      )

  abbrev pub wallet_settlement : Adapter WalletRail
  wallet_settlement = record {
    rail = c.rail;
    escrow = escrow_on;
    settle = λ h. release_on h true;
    refund = λ h. release_on h false;
  }

  as_settlement-ok :
      {A : Type 0} (r : Result BridgeError A) (a : A) → as_settlement r ≡ ok a → r ≡ ok a
  as_settlement-ok (ok x) a e = cc e
  as_settlement-ok (err x) a e = absurd (cc e)

  as_settlement-err :
      {A : Type 0} (r : Result BridgeError A) (x : SettlementError)
      → as_settlement r ≡ err x
      → (e : BridgeError) × (r ≡ err e)
  as_settlement-err (ok a) x e = absurd (cc e)
  as_settlement-err (err e) x q = (e, refl)

  -- Two rails are the same where the bridges are.
  same_rail : (x y : WalletRail) → x.0 ≡ y.0 → x ≡ y
  same_rail x y e = Σ_prop_path (λ p. ∥∥₁_prop) e

  pair : {A B : Type 0} {a a' : A} {b b' : B} → a ≡ a' → b ≡ b' → ◌≡◌ {A = A × B} (a, b) (a', b')
  pair p q = cc (p, q)

  abbrev bridge_of : WalletRail → WalletBackedSettlement
  bridge_of ((n, s), k) = s

  abbrev drawn : WalletRail → ℕ
  drawn ((n, s), k) = n

  -- What a call on the rail is on the bridge.
  returned :
      (h : String) (b : Bool) (x x' : WalletRail) (r : Receipt)
      → release_on h b x ≡ (ok r, x')
      → release sha256 c (uuid (drawn x)) h b (bridge_of x) ≡ (ok r, bridge_of x')
  returned h b x x' r e =
      pair (as_settlement-ok _ r (ap (λ q. q.0) e))
        (ap (λ (q : Result SettlementError Receipt × WalletRail). bridge_of q.1) e)

  raised :
      (h : String) (b : Bool) (x x' : WalletRail) (e : SettlementError)
      → release_on h b x ≡ (err e, x')
      → (y : BridgeError) × (release sha256 c (uuid (drawn x)) h b (bridge_of x)
          ≡ (err y, bridge_of x'))
  raised h b x x' e q =
      let (y, f) = as_settlement-err _ e (ap (λ p. p.0) q) in
      (y, pair f (ap (λ (p : Result SettlementError Receipt × WalletRail). bridge_of p.1) q))

  on_again :
      (h : String) (b : Bool) (x x' : WalletRail) (r : Receipt)
      → release_on h b x ≡ (ok r, x')
      → release_on h b x' ≡ (ok r, x')
  on_again h b x x' r e =
      let n = drawn x' in
      let again =
        release-again sha256 c (uuid (drawn x)) (uuid n) h b (bridge_of x) (bridge_of x') r
          (returned h b x x' r e) in
      pair
        (ap (λ (q : Result BridgeError Receipt × WalletBackedSettlement). as_settlement q.0) again)
        (same_rail _ x'
          (ap (λ (q : Result BridgeError Receipt × WalletBackedSettlement). (n, q.1)) again))

  on_failed :
      (h : String) (b : Bool) (x x' : WalletRail) (e : SettlementError)
      → release_on h b x ≡ (err e, x')
      → x' ≡ x
  on_failed h b x x' e q =
      let (y, f) = raised h b x x' e q in
      same_rail x' x (
        pair (ap (λ (p : Result SettlementError Receipt × WalletRail). drawn p.1) (sym q))
          (release-failed sha256 c (uuid (drawn x)) h b (bridge_of x) (bridge_of x') y x.1 f))

  on_excludes :
      (h : String) (b : Bool) (x x' t : WalletRail) (r q : Receipt)
      → release_on h b x ≡ (ok r, x')
      → release_on h (not b) x' ≢ (ok q, t)
  on_excludes h b x x' t r q e f =
      release-excludes sha256 c (uuid (drawn x)) (uuid (drawn x')) h b (bridge_of x) (bridge_of x')
        (bridge_of t) r q (returned h b x x' r e) (returned h (not b) x' t q f)

  -- The settlement over wallets keeps the contract of an adapter on every bridge whose vaults cover what
  -- they hold, which is kept by each call: a release that returned returns the same receipt again without
  -- an effect, one that raised had no effect, and no hold is paid to both sides.
  pub wallet_settlement-IsLawful : IsLawful wallet_settlement
  wallet_settlement-IsLawful = record {
    settle_again = λ h. on_again h true;
    refund_again = λ h. on_again h false;
    settle_failed = λ h. on_failed h true;
    refund_failed = λ h. on_failed h false;
    settled_not_refunded = λ h. on_excludes h true;
    refunded_not_settled = λ h. on_excludes h false;
  }
