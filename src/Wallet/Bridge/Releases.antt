-- ===== src/Wallet/Bridge/Releases.antt =====
-- How `_release` of novapanda/wallet/settlement_bridge.py ends.
use mathlib.Core.Logic.{∥∥₁_elim}
use mathlib.Core.HLevel.{⊥_prop}
use novapanda.Base.{
  String, Bool, true, false, not, some, ◌≡◌, ◌≢◌, inl, inr, refl, sym, ap, ◌∙◌, eq_refl, Bool-cases,
  Option-cases,
}
use novapanda.Base.Dict.{get, get-put}
use novapanda.Base.Exec.{Result, ok, err}
use novapanda.Settlement.Contract.{Status, held, settled, refunded, Receipt}
use novapanda.Settlement.Mock.{same_status}
use novapanda.Wallet.Bridge.{
  WalletHold, BridgeConfig, WalletBackedSettlement, BridgeError, unknown_escrow, escrow_conflict,
  on_ledger, closed_by, pay_parties, close_hold, release, receipt_of, target_of,
}
use novapanda.Wallet.Bridge.Covered.{Kept}
use novapanda.Wallet.Bridge.Payments.{closed_hold, same_held}
use novapanda.Wallet.Bridge.Payouts.{close_hold-Paid}

module _ (sha256 : String → String) (c : BridgeConfig) where
  -- A release fails and writes nothing, finds that it was done before, or closes a hold.
  data Outcome (uuid h : String) (b : Bool) (s : WalletBackedSettlement) : Type 0 where
    refused : (e : BridgeError) → release sha256 c uuid h b s ≡ (err e, s) → Outcome uuid h b s
    repeated :
        (x : WalletHold)
        → get s.holds h ≡ some x
        → x.status ≡ target_of sha256 c b
        → release sha256 c uuid h b s ≡ (ok (receipt_of sha256 c h x), s)
        → Outcome uuid h b s
    closes :
        (x : WalletHold)
        → get s.holds h ≡ some x
        → x.status ≡ held
        → release sha256 c uuid h b s ≡ close_hold sha256 c uuid h x b s
        → Outcome uuid h b s

  same_target :
      (b : Bool) (t : Status)
      → same_status t (target_of sha256 c b) ≡ true
      → t ≡ target_of sha256 c b
  same_target true settled e = refl
  same_target false refunded e = refl
  same_target true held e = absurd (cc e)
  same_target true refunded e = absurd (cc e)
  same_target false held e = absurd (cc e)
  same_target false settled e = absurd (cc e)

  release-cases : (uuid h : String) (b : Bool) (s : WalletBackedSettlement) → Outcome uuid h b s
  unfolding release
  release-cases uuid h b s = elim (Option-cases (get s.holds h)) [
    | inl e ↦ refused unknown_escrow (rw (e, release) refl)
    | inr (x, e) ↦ elim (Bool-cases (same_status x.status (target_of sha256 c b))) [
      | inl again ↦ repeated x e (same_target b x.status again) (rw (e, again, release) refl)
      | inr new ↦ elim (Bool-cases (same_status x.status held)) [
        | inr over ↦ refused escrow_conflict (rw (e, new, over, release) refl)
        | inl still ↦ closes x e (same_held x.status still) (rw (e, new, still, release) refl)
      ]
    ]
  ]

  -- What a release that returned leaves at its handle.
  abbrev Stands : String → Bool → Receipt → WalletBackedSettlement → Type 0
  Stands h b r s =
      (y : WalletHold) × (get s.holds h ≡ some y)
      × (y.status ≡ target_of sha256 c b)
      × (r ≡ receipt_of sha256 c h y)

  closed_by-Stands :
      (h : String) (b : Bool) (x : WalletHold)
      (out : Result BridgeError Unit × WalletBackedSettlement) (r : Receipt)
      (s' : WalletBackedSettlement)
      → closed_by sha256 c h (closed_hold sha256 c b x) out ≡ (ok r, s')
      → Stands h b r s'
  closed_by-Stands h b x (err e, s) r s' q = absurd (cc q)
  closed_by-Stands h b x (ok _, s) r s' q =
      let is =
        ap (λ (p : Result BridgeError Receipt × WalletBackedSettlement). get p.1.holds h) q in
      (closed_hold sha256 c b x, sym is ∙ rw (get-put, eq_refl) refl, refl, cc q)

  again_at :
      (h : String) (b : Bool) (x : WalletHold) (s s' : WalletBackedSettlement) (r : Receipt)
      → get s.holds h ≡ some x
      → x.status ≡ target_of sha256 c b
      → ◌≡◌ {A = Result BridgeError Receipt × WalletBackedSettlement}
          (ok (receipt_of sha256 c h x), s)
          (ok r, s')
      → Stands h b r s'
  again_at h b x s s' r f is q =
      let same : s ≡ s' = cc q in
      (x, ap (λ (t : WalletBackedSettlement). get t.holds h) (sym same) ∙ f, is, cc q)

  release-Stands :
      (uuid h : String) (b : Bool) (s s' : WalletBackedSettlement) (r : Receipt)
      → release sha256 c uuid h b s ≡ (ok r, s')
      → Stands h b r s'
  release-Stands uuid h b s s' r e = elim (release-cases uuid h b s) [
    | refused x f ↦ absurd (cc (f, e))
    | repeated x f is g ↦ again_at h b x s s' r f is (sym g ∙ e)
    | closes x f is g ↦ closed_by-Stands h b x (pay_parties sha256 c uuid h x b s) r s' (sym g ∙ e)
  ]

  status_differs :
      (b : Bool) → same_status (target_of sha256 c b) (target_of sha256 c (not b)) ≡ false
  status_differs true = refl
  status_differs false = refl

  status-same : (b : Bool) → same_status (target_of sha256 c b) (target_of sha256 c b) ≡ true
  status-same true = refl
  status-same false = refl

  status_not_held : (b : Bool) → same_status (target_of sha256 c b) held ≡ false
  status_not_held true = refl
  status_not_held false = refl

  -- What was released is released again to the same side with the same receipt and no effect, and to
  -- the other side never.
  pub release-again :
      (uuid uuid' h : String) (b : Bool) (s s' : WalletBackedSettlement) (r : Receipt)
      → release sha256 c uuid h b s ≡ (ok r, s')
      → release sha256 c uuid' h b s' ≡ (ok r, s')
  unfolding release
  release-again uuid uuid' h b s s' r e =
      let (y, there, is, given) = release-Stands uuid h b s s' r e in
      let same : same_status y.status (target_of sha256 c b) ≡ true = rw is (status-same b) in
      rw (there, same, release) (ap (λ q. (ok q, s')) (sym given))

  pub release-excludes :
      (uuid uuid' h : String) (b : Bool) (s s' t : WalletBackedSettlement) (r q : Receipt)
      → release sha256 c uuid h b s ≡ (ok r, s')
      → release sha256 c uuid' h (not b) s' ≢ (ok q, t)
  unfolding release
  release-excludes uuid uuid' h b s s' t r q e f =
      let (y, there, is, given) = release-Stands uuid h b s s' r e in
      let differs : same_status y.status (target_of sha256 c (not b)) ≡ false =
        rw is (status_differs b) in
      let over : same_status y.status held ≡ false = rw is (status_not_held b) in
      absurd (cc (rw (there, differs, over, release) at f))

  close_hold-returns :
      (uuid h : String) (x : WalletHold) (b : Bool) (s : WalletBackedSettlement)
      → Kept sha256 c s
      → get s.holds h ≡ some x
      → x.status ≡ held
      → (close_hold sha256 c uuid h x b s).0 ≡ ok (receipt_of sha256 c h (closed_hold sha256 c b x))
  close_hold-returns uuid h x b s k there is = elim (Option-cases (on_ledger x)) [
    | inr (p, e) ↦ (close_hold-Paid sha256 c uuid h x p b s k there is e).returns
    | inl e ↦
        let f : pay_parties sha256 c uuid h x b s ≡ (ok tt, s) = rw (e, pay_parties) refl in
        ap (λ q. (closed_by sha256 c h (closed_hold sha256 c b x) q).0) f
  ]

  -- A release that failed has written nothing, since the vaults cover what they hold.
  pub release-failed :
      (uuid h : String) (b : Bool) (s s' : WalletBackedSettlement) (e : BridgeError)
      → ∥ Kept sha256 c s ∥₁
      → release sha256 c uuid h b s ≡ (err e, s')
      → s' ≡ s
  release-failed uuid h b s s' e k f = elim (release-cases uuid h b s) [
    | refused x g ↦ cc (f, g)
    | repeated x there is g ↦ absurd (cc (f, g))
    | closes x there is g ↦ absurd (
        ∥∥₁_elim k ⊥_prop (λ m.
          let q = close_hold-returns uuid h x b s m there is in
          let p =
            ap (λ (o : Result BridgeError Receipt × WalletBackedSettlement). o.0) (sym g ∙ f) in
          cc (p, q)))
  ]
