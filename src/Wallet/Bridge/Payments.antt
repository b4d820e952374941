-- ===== src/Wallet/Bridge/Payments.antt =====
-- What the bridge of novapanda/wallet/settlement_bridge.py pays.
use mathlib.Core.Path.{subst}
use novapanda.Base.{
  String, Bool, true, false, none, some, ◌≡◌, ◌≢◌, ◌⊎◌, inl, inr, refl, sym, ap, ◌∙◌, arith,
  Bool-cases, Option-cases,
}
use novapanda.Base.Int.{ℤ, pos, ltb_ℤ}
use novapanda.Base.Dict.{get}
use novapanda.Base.Exec.{ok, err}
use novapanda.Settlement.Contract.{Status, held, settled, refunded}
use novapanda.Settlement.Mock.{same_status}
use novapanda.Wallet.Ledger.{InMemoryChainAdapter, amount_at}
use novapanda.Wallet.Ledger.Sums.{Natural}
use novapanda.Wallet.Bridge.{
  Parties, WalletHold, BridgeConfig, WalletBackedSettlement, vault_underfunded, on_ledger, vault,
  address_of, opened_by, closed_by, without, ensure_account, escrow_bound, escrow, pay_out,
  pay_parties, close_hold, release, new_hold, handle_of, payee_of, target_of,
}
use novapanda.Wallet.Bridge.Covered.{
  key, address_of-Outside, at_address, Kept, Opened, Kept-Opened, ensure_account-address,
  ensure_account-Opened,
}
use novapanda.Wallet.Bridge.Calls.{
  moved, pay-cases, Kept-open_hold, Kept-paid_in, Kept-paid_out, ensured-Outside, ensured-Kept,
  Kept-pending,
}

not_held : (b : Bool) (sha256 : String → String) (c : BridgeConfig) → target_of sha256 c b ≢ held
not_held true sha256 c e = cc e
not_held false sha256 c e = cc e

pub same_held : (t : Status) → same_status t held ≡ true → t ≡ held
same_held held e = refl
same_held settled e = absurd (cc e)
same_held refunded e = absurd (cc e)

module _ (sha256 : String → String) (c : BridgeConfig) where
  escrow_bound-Kept :
      (uuid tx_uuid exchange_id : String) (v : ℤ) (currency : String) (p : Parties)
      (s : WalletBackedSettlement)
      → Kept sha256 c s
      → Natural v
      → Kept sha256 c (escrow_bound sha256 c uuid tx_uuid exchange_id v currency p s).1
  unfolding escrow_bound
  escrow_bound-Kept uuid tx_uuid exchange_id v currency p s k n =
      let (from, t) = ensure_account sha256 c p.client s in
      let out = ensured-Outside sha256 c p.client s k in
      let s' = (ensure_account sha256 c p.provider t).1 in
      let m = ensured-Kept sha256 c p.provider t (ensured-Kept sha256 c p.client s k) in
      let h = handle_of sha256 c uuid in
      let x = new_hold sha256 c exchange_id v currency (some p) in
      let u = moved sha256 c from (vault sha256 c h) v s' in
      elim (pay-cases sha256 c tx_uuid from (vault sha256 c h) v s' m) [
        | inl (e, f, short) ↦ subst (λ q. Kept sha256 c (opened_by sha256 c h x q).1) (sym f) m
        | inr (f, enough) ↦
            let (i, covers) = Kept-paid_in sha256 c from h v s' m out n in
            let d = without exchange_id u.pending in
            subst (λ q. Kept sha256 c (opened_by sha256 c h x q).1) (sym f)
              (Kept-open_hold sha256 c h x (record u { pending = d }) (Kept-pending sha256 c d u i)
                n (λ p e. covers))
      ]

  pub escrow-Kept :
      (uuid tx_uuid exchange_id : String) (v : ℤ) (currency : String) (s : WalletBackedSettlement)
      → Kept sha256 c s
      → Kept sha256 c (escrow sha256 c uuid tx_uuid exchange_id v currency s).1
  unfolding escrow on_ledger
  escrow-Kept uuid tx_uuid exchange_id v currency s k = elim (Bool-cases (ltb_ℤ v (pos 0))) [
    | inl negative ↦ rw (negative, escrow) k
    | inr natural ↦ elim (Option-cases (get s.pending exchange_id)) [
      | inl e ↦
          rw (natural, e, escrow)
            (Kept-open_hold sha256 c _ (new_hold sha256 c exchange_id v currency none) s k
              (ground (arith, natural)) (λ p f. absurd (cc f)))
      | inr (p, e) ↦
          rw (natural, e, escrow)
            (escrow_bound-Kept uuid tx_uuid exchange_id v currency p s k (ground (arith, natural)))
    ]
  ]

  -- `_release` with the hold at hand
  pub pay_out-cases :
      (uuid h : String) (x : WalletHold) (payee : String) (s : WalletBackedSettlement)
      → Kept sha256 c s
      → (s' : WalletBackedSettlement) × Opened sha256 c s s'
        × (((pay_out sha256 c uuid h x.amount payee s ≡ (err vault_underfunded, s'))
              × (ltb_ℤ (at_address sha256 c (vault sha256 c h) s) x.amount ≡ true))
            ⊎ ((pay_out sha256 c uuid h x.amount payee s ≡ (
              ok tt,
              moved sha256 c (vault sha256 c h) (address_of sha256 c payee) x.amount s',
            ))
                × (ltb_ℤ (at_address sha256 c (vault sha256 c h) s) x.amount ≡ false)))
  unfolding pay_out
  pay_out-cases uuid h x payee s k =
      let s' = (ensure_account sha256 c payee s).1 in
      let o = ensure_account-Opened sha256 c payee s k in
      let w = vault sha256 c h in
      let same : at_address sha256 c w s' ≡ at_address sha256 c w s =
        ap (λ (l : InMemoryChainAdapter). amount_at l.balances w (key sha256 c)) o.ledger in
      let to = ensure_account-address sha256 c payee s k in
      (
        s',
        o,
        elim (Bool-cases (ltb_ℤ (at_address sha256 c w s) x.amount)) [
          | inl short ↦
              let f : ltb_ℤ (at_address sha256 c w s') x.amount ≡ true =
                ap (λ v. ltb_ℤ v x.amount) same ∙ short in
              inl (rw (f, pay_out) refl, short)
          | inr enough ↦
              let f : ltb_ℤ (at_address sha256 c w s') x.amount ≡ false =
                ap (λ v. ltb_ℤ v x.amount) same ∙ enough in
              elim (pay-cases sha256 c uuid w (address_of sha256 c payee) x.amount s'
                (ensured-Kept sha256 c payee s k)) [
                  | inl (e, g, short) ↦ absurd (cc (f, short))
                  | inr (g, again) ↦ inr (rw (f, to, pay_out) g, enough)
                ]
        ],
      )

  abbrev pub closed_hold : Bool → WalletHold → WalletHold
  closed_hold b x = record x { status = target_of sha256 c b }

  close_hold-Kept :
      (uuid h : String) (x : WalletHold) (b : Bool) (s : WalletBackedSettlement)
      → Kept sha256 c s
      → get s.holds h ≡ some x
      → Kept sha256 c (close_hold sha256 c uuid h x b s).1
  unfolding on_ledger
  close_hold-Kept uuid h x b s k there =
      let y = closed_hold b x in
      elim (Option-cases (on_ledger x)) [
        | inl e ↦
            let f : pay_parties sha256 c uuid h x b s ≡ (ok tt, s) = rw (e, pay_parties) refl in
            subst (λ q. Kept sha256 c (closed_by sha256 c h y q).1) (sym f)
              (Kept-open_hold sha256 c h y s k (k.amounts h x there)
                (λ p g. absurd (cc (rw e at g))))
        | inr (p, e) ↦
            let payee = payee_of sha256 c b p in
            let f : pay_parties sha256 c uuid h x b s ≡ pay_out sha256 c uuid h x.amount payee s =
              rw (e, pay_parties) refl in
            let (s', o, cases) = pay_out-cases uuid h x payee s k in
            let m = Kept-Opened sha256 c s s' k o in
            elim cases [
              | inl (g, short) ↦
                  subst (λ q. Kept sha256 c (closed_by sha256 c h y q).1) (sym (f ∙ g)) m
              | inr (g, enough) ↦
                  subst (λ q. Kept sha256 c (closed_by sha256 c h y q).1) (sym (f ∙ g))
                    (Kept-paid_out sha256 c (address_of sha256 c payee) h x y s' m
                      (address_of-Outside sha256 c payee) (k.amounts h x there)
                      (not_held b sha256 c) (rw o.ledger enough))
            ]
      ]

  pub release-Kept :
      (uuid h : String) (b : Bool) (s : WalletBackedSettlement)
      → Kept sha256 c s
      → Kept sha256 c (release sha256 c uuid h b s).1
  unfolding release
  release-Kept uuid h b s k = elim (Option-cases (get s.holds h)) [
    | inl e ↦ rw (e, release) k
    | inr (x, e) ↦ elim (Bool-cases (same_status x.status (target_of sha256 c b))) [
      | inl again ↦ rw (e, again, release) k
      | inr new ↦ elim (Bool-cases (same_status x.status held)) [
        | inr over ↦ rw (e, new, over, release) k
        | inl still ↦ rw (e, new, still, release) (close_hold-Kept uuid h x b s k e)
      ]
    ]
  ]
