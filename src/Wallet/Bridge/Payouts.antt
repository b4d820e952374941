-- ===== src/Wallet/Bridge/Payouts.antt =====
-- What settling or refunding a hold of novapanda/wallet/settlement_bridge.py pays.
use mathlib.Core.Path.{subst}
use novapanda.Base.{
  String, Bool, true, false, some, List, [], ◌∷◌, ◌≡◌, inl, inr, refl, sym, ap, ◌∙◌, arith, eq_refl,
}
use novapanda.Base.Int.{ℤ, ◌+ℤ◌}
use novapanda.Base.Dict.{get, get-put, get-empty}
use novapanda.Base.Exec.{Result, ok}
use novapanda.Settlement.Contract.{Status, held, Receipt}
use novapanda.Settlement.Mock.{same_status}
use novapanda.Wallet.Ledger.{InMemoryChainAdapter, amount_at, minus}
use novapanda.Wallet.Bridge.{
  Parties, WalletHold, BridgeConfig, WalletBackedSettlement, BridgeError, on_ledger, vault,
  address_of, closed_by, new_bridge, seed_client, bind_parties, escrow, pay_out, pay_parties,
  close_hold, release, receipt_of, payee_of, target_of,
}
use novapanda.Wallet.Bridge.Covered.{key, Outside, address_of-Outside, at_address, Kept, Opened}
use novapanda.Wallet.Bridge.Calls.{
  moved, vault-differs, move_amount-at, seed_client-Kept, bind_parties-Kept,
}
use novapanda.Wallet.Bridge.Payments.{escrow-Kept, pay_out-cases, closed_hold, release-Kept}

-- A call of the bridge; `uuid` and `tx_uuid` are what `uuid4` gives in it.
pub data BridgeCall : Type 0 where
  seed_call : String → ℤ → BridgeCall
  bind_call : (exchange_id client provider : String) → BridgeCall
  escrow_call : (uuid tx_uuid exchange_id : String) → ℤ → String → BridgeCall
  release_call : (uuid handle : String) → Bool → BridgeCall

module _ (sha256 : String → String) (c : BridgeConfig) where
  new_bridge-Kept : Kept sha256 c (new_bridge sha256 c)
  unfolding amount_at
  new_bridge-Kept = record {
    here = refl;
    own = λ a b e. absurd (cc (e, get-empty a));
    amounts = λ h x e. absurd (cc (e, get-empty h));
    vaults = λ h. omega arith;
    covered = λ h x p e f g. absurd (cc (e, get-empty h));
  }

  unfoldable pub serve_call : BridgeCall → WalletBackedSettlement → WalletBackedSettlement
  serve_call (seed_call client amount) s = seed_client sha256 c client amount s
  serve_call (bind_call exchange_id client provider) s =
      bind_parties sha256 c exchange_id client provider s
  serve_call (escrow_call uuid tx_uuid exchange_id amount currency) s =
      (escrow sha256 c uuid tx_uuid exchange_id amount currency s).1
  serve_call (release_call uuid handle to_provider) s =
      (release sha256 c uuid handle to_provider s).1

  unfoldable pub serve_calls : List BridgeCall → WalletBackedSettlement → WalletBackedSettlement
  serve_calls [] s = s
  serve_calls (x ∷ xs) s = serve_calls xs (serve_call x s)

  serve_call-Kept :
      (x : BridgeCall) (s : WalletBackedSettlement)
      → Kept sha256 c s
      → Kept sha256 c (serve_call x s)
  unfolding serve_call
  serve_call-Kept (seed_call client amount) s k = seed_client-Kept sha256 c client amount s k
  serve_call-Kept (bind_call exchange_id client provider) s k =
      bind_parties-Kept sha256 c exchange_id client provider s k
  serve_call-Kept (escrow_call uuid tx_uuid exchange_id amount currency) s k =
      escrow-Kept sha256 c uuid tx_uuid exchange_id amount currency s k
  serve_call-Kept (release_call uuid handle to_provider) s k =
      release-Kept sha256 c uuid handle to_provider s k

  serve_calls-Kept :
      (xs : List BridgeCall) (s : WalletBackedSettlement)
      → Kept sha256 c s
      → Kept sha256 c (serve_calls xs s)
  unfolding serve_calls
  serve_calls-Kept [] s k = k
  serve_calls-Kept (x ∷ xs) s k = serve_calls-Kept xs (serve_call x s) (serve_call-Kept x s k)

  -- The hold is closed, and its amount went from its vault to the address.
  pub record Paid (b : Bool) (h to : String) (x : WalletHold) (s : WalletBackedSettlement)
      (out : Result BridgeError Receipt × WalletBackedSettlement) : Type 0 where
    pub returns : out.0 ≡ ok (receipt_of sha256 c h (closed_hold sha256 c b x))
    pub closed : get out.1.holds h ≡ some (closed_hold sha256 c b x)
    pub received : at_address sha256 c to out.1 ≡ at_address sha256 c to s +ℤ x.amount
    pub spent :
        at_address sha256 c (vault sha256 c h) out.1
        ≡ minus (at_address sha256 c (vault sha256 c h) s) x.amount

  moved-Paid :
      (b : Bool) (h to : String) (x : WalletHold) (s s' : WalletBackedSettlement)
      → Opened sha256 c s s'
      → Outside sha256 c to
      → Paid b h to x s (
          closed_by sha256 c h
            (closed_hold sha256 c b x)
            (ok tt, moved sha256 c (vault sha256 c h) to x.amount s'))
  moved-Paid b h to x s s' o out =
      let w = vault sha256 c h in
      let same = λ (a : String).
        ap (λ (l : InMemoryChainAdapter). amount_at l.balances a (key sha256 c)) o.ledger in
      let there = λ (a : String).
        move_amount-at w to (key sha256 c) x.amount s'.ledger.balances a
          (vault-differs sha256 c to h out) in
      record {
        returns = refl;
        closed = rw (get-put, eq_refl) refl;
        received = rw (there to, eq_refl to) (ap (λ v. v +ℤ x.amount) (same to));
        spent = rw (there w, out h, eq_refl w) (ap (λ v. minus v x.amount) (same w));
      }

  pub close_hold-Paid :
      (uuid h : String) (x : WalletHold) (p : Parties) (b : Bool) (s : WalletBackedSettlement)
      → Kept sha256 c s
      → get s.holds h ≡ some x
      → x.status ≡ held
      → on_ledger x ≡ some p
      → Paid b h
          (address_of sha256 c (payee_of sha256 c b p))
          x
          s
          (close_hold sha256 c uuid h x b s)
  close_hold-Paid uuid h x p b s k there is e =
      let payee = payee_of sha256 c b p in
      let y = closed_hold sha256 c b x in
      let f : pay_parties sha256 c uuid h x b s ≡ pay_out sha256 c uuid h x.amount payee s =
        rw (e, pay_parties) refl in
      let (s', o, cases) = pay_out-cases sha256 c uuid h x payee s k in
      let covered = k.covered h x p there is e in
      elim cases [
        | inl (g, short) ↦ absurd (ground (arith, covered, short))
        | inr (g, enough) ↦
            subst (λ q. Paid b h (address_of sha256 c payee) x s (closed_by sha256 c h y q))
              (sym (f ∙ g)) (moved-Paid b h _ x s s' o (address_of-Outside sha256 c payee))
      ]

  not_target : (b : Bool) (t : Status) → t ≡ held → same_status t (target_of sha256 c b) ≡ false
  not_target true t e = rw e refl
  not_target false t e = rw e refl

  -- Whatever calls a new bridge has served: settling or refunding a hold that is still held, whose
  -- parties were bound and are not empty, succeeds. It closes the hold, and moves exactly its amount
  -- from its vault to the account of the provider or of the client.
  pub release-Paid :
      (xs : List BridgeCall) (uuid h : String) (x : WalletHold) (p : Parties) (b : Bool)
      → get (serve_calls xs (new_bridge sha256 c)).holds h ≡ some x
      → x.status ≡ held
      → on_ledger x ≡ some p
      → Paid b h
          (address_of sha256 c (payee_of sha256 c b p))
          x
          (serve_calls xs (new_bridge sha256 c))
          (release sha256 c uuid h b (serve_calls xs (new_bridge sha256 c)))
  unfolding release
  release-Paid xs uuid h x p b there is e =
      let s = serve_calls xs (new_bridge sha256 c) in
      let k = serve_calls-Kept xs (new_bridge sha256 c) new_bridge-Kept in
      let still : same_status x.status held ≡ true = rw is refl in
      rw (there, not_target b x.status is, still, release)
        (close_hold-Paid uuid h x p b s k there is e)
