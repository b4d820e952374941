-- ===== src/Wallet/Bridge/Calls.antt =====
-- What a call leaves of the vaults of novapanda/wallet/settlement_bridge.py.
use mathlib.Core.Option.{some-injective}
use novapanda.Base.{
  String, true, false, some, List, ◌==◌, ◌≡◌, ◌≢◌, ◌⊎◌, inl, inr, refl, ap, ◌∙◌, if◌then◌else◌,
  arith, eq_iff, eq_refl, Bool-cases,
}
use novapanda.Base.Int.{ℤ, ◌+ℤ◌, ◌≤ℤ◌, ltb_ℤ, +ℤ_parts}
use novapanda.Base.Dict.{Dict, put, get-put}
use novapanda.Base.Exec.{ok, err}
use novapanda.Settlement.Contract.{held}
use novapanda.Wallet.Types.{insufficient_balance}
use novapanda.Wallet.Ledger.{Entry, amount_at, set_amount, minus, move_amount, transfer, tx_of}
use novapanda.Wallet.Ledger.Sums.{Natural, minus_parts, amount_at-set_amount}
use novapanda.Wallet.Bridge.{
  Parties, WalletHold, BridgeConfig, WalletBackedSettlement, BridgeError, from_wallet, on_ledger,
  vault, ensure_account, seed_client, bind_parties, noted, pay, open_hold, request,
}
use novapanda.Wallet.Bridge.Covered.{
  key, Outside, address_of-Outside, at_address, Kept, Kept-Opened, ensure_account-address,
  ensure_account-Opened, same_vault,
}

amount_at-here :
    (es : List Entry) (b k a : String) (v : ℤ)
    → amount_at (set_amount es b k v) a k ≡ (if b == a then v else amount_at es a k)
amount_at-here es b k a v = ground (arith, amount_at-set_amount es b k a k v, eq_refl k)

pub move_amount-at :
    (from to k : String) (v : ℤ) (es : List Entry) (a : String)
    → (from == to) ≡ false
    → amount_at (move_amount from to k v es) a k ≡ (
        if to == a
        then amount_at es to k +ℤ v
        else if from == a
        then minus (amount_at es from k) v
        else amount_at es a k)
unfolding move_amount
move_amount-at from to k v es a differ =
    rw (amount_at-here, amount_at-here, amount_at-here, differ) refl

module _ (sha256 : String → String) (c : BridgeConfig) where
  abbrev pub moved : (from to : String) → ℤ → WalletBackedSettlement → WalletBackedSettlement
  moved from to v s = record s {
    ledger = record s.ledger { balances = move_amount from to (key sha256 c) v s.ledger.balances };
  }

  pub pay-cases :
      (uuid from to : String) (v : ℤ) (s : WalletBackedSettlement)
      → Kept sha256 c s
      → ((e : BridgeError) × (pay sha256 c uuid from to v s ≡ (err e, s))
          × (ltb_ℤ (at_address sha256 c from s) v ≡ true))
        ⊎ ((pay sha256 c uuid from to v s ≡ (ok tt, moved from to v s))
            × (ltb_ℤ (at_address sha256 c from s) v ≡ false))
  unfolding pay transfer
  pay-cases uuid from to v s k =
      let same : (c.chain.chain_id == s.ledger.chain.chain_id) ≡ true = rw (k.here, eq_refl) refl in
      elim (Bool-cases (ltb_ℤ (at_address sha256 c from s) v)) [
        | inl short ↦
            let t : transfer sha256 uuid from (request sha256 c to v) s.ledger
                ≡ (err insufficient_balance, s.ledger) =
              rw (same, short, transfer) refl in
            inl (from_wallet insufficient_balance, ap (noted sha256 c s) t, short)
        | inr enough ↦
            let l = (moved from to v s).ledger in
            let x = tx_of sha256 uuid from (request sha256 c to v) s.ledger in
            let t : transfer sha256 uuid from (request sha256 c to v) s.ledger ≡ (ok x, l) =
              rw (same, enough, transfer) refl in
            inr (ap (noted sha256 c s) t, enough)
      ]

  pub Kept-open_hold :
      (h : String) (x : WalletHold) (s : WalletBackedSettlement)
      → Kept sha256 c s
      → Natural x.amount
      → ((p : Parties)
          → on_ledger x ≡ some p
          → x.amount ≤ℤ at_address sha256 c (vault sha256 c h) s)
      → Kept sha256 c (open_hold sha256 c h x s)
  Kept-open_hold h x s k n enough = record {
    here = k.here;
    own = k.own;
    amounts = λ j y e. elim (Bool-cases (h == j)) [
      | inl same ↦ let q : x ≡ y = some-injective x y (rw (get-put, same) at e) in rw (← q) n
      | inr other ↦ k.amounts j y (rw (get-put, other) at e)
    ];
    vaults = k.vaults;
    covered = λ j y p e f g. elim (Bool-cases (h == j)) [
      | inl same ↦
          let q : x ≡ y = some-injective x y (rw (get-put, same) at e) in
          rw (← q, ← (eq_iff h j).0 same) (enough p (rw q g))
      | inr other ↦ k.covered j y p (rw (get-put, other) at e) f g
    ];
  }

  -- A payment from an account to a vault.
  pub Kept-paid_in :
      (from h : String) (v : ℤ) (s : WalletBackedSettlement)
      → Kept sha256 c s
      → Outside sha256 c from
      → Natural v
      → Kept sha256 c (moved from (vault sha256 c h) v s)
        × (v ≤ℤ at_address sha256 c (vault sha256 c h) (moved from (vault sha256 c h) v s))
  Kept-paid_in from h v s k out n =
      let w = vault sha256 c in
      let after = at_address sha256 c in
      let s' = moved from (w h) v s in
      let grows : (j : String) → after (w j) s ≤ℤ after (w j) s' = λ j.
        rw (move_amount-at from (w h) (key sha256 c) v s.ledger.balances (w j) (out h), out j)
          (ground (arith, n, eq_iff (w h) (w j), +ℤ_parts (after (w h) s) v)) in
      (
        record {
          here = k.here;
          own = k.own;
          amounts = k.amounts;
          vaults = λ j. omega (arith, k.vaults j, grows j);
          covered = λ j y p e f g. omega (arith, k.covered j y p e f g, grows j);
        },
        rw
            (
              move_amount-at from (w h) (key sha256 c) v s.ledger.balances (w h) (out h),
              eq_refl (w h),
            )
            (omega (arith, k.vaults h, +ℤ_parts (after (w h) s) v)),
      )

  pub vault-differs : (to h : String) → Outside sha256 c to → (vault sha256 c h == to) ≡ false
  vault-differs to h out =
      ground (arith, out h, eq_iff to (vault sha256 c h), eq_iff (vault sha256 c h) to)

  -- A payment from the vault of a hold that is closed then.
  pub Kept-paid_out :
      (to h : String) (x y : WalletHold) (s : WalletBackedSettlement)
      → Kept sha256 c s
      → Outside sha256 c to
      → Natural y.amount
      → y.status ≢ held
      → ltb_ℤ (at_address sha256 c (vault sha256 c h) s) x.amount ≡ false
      → Kept sha256 c (open_hold sha256 c h y (moved (vault sha256 c h) to x.amount s))
  Kept-paid_out to h x y s k out n closed enough =
      let w = vault sha256 c in
      let after = at_address sha256 c in
      let there = λ (j : String).
        move_amount-at (w h) to (key sha256 c) x.amount s.ledger.balances (w j)
          (vault-differs to h out) in
      record {
        here = k.here;
        own = k.own;
        amounts = λ j z e. elim (Bool-cases (h == j)) [
          | inl same ↦ let q : y ≡ z = some-injective y z (rw (get-put, same) at e) in rw (← q) n
          | inr other ↦ k.amounts j z (rw (get-put, other) at e)
        ];
        vaults = λ j.
            rw (there j, out j)
              (ground (arith, k.vaults j, enough, minus_parts (after (w h) s) x.amount));
        covered = λ j z p e f g. elim (Bool-cases (h == j)) [
          | inl same ↦
              let q : y ≡ z = some-injective y z (rw (get-put, same) at e) in
              absurd (closed (ap (λ (r : WalletHold). r.status) q ∙ f))
          | inr other ↦ elim (Bool-cases (w h == w j)) [
            | inl same ↦
                let q : h ≡ j = same_vault h j ((eq_iff (w h) (w j)).0 same) in
                absurd (cc (other, (eq_iff h j).1 q))
            | inr apart ↦
                rw (there j, out j, apart) (k.covered j z p (rw (get-put, other) at e) f g)
          ]
        ];
      }

  pub ensured-Outside :
      (agent : String) (s : WalletBackedSettlement)
      → Kept sha256 c s
      → Outside sha256 c (ensure_account sha256 c agent s).0
  ensured-Outside agent s k h =
      rw (ensure_account-address sha256 c agent s k) (address_of-Outside sha256 c agent h)

  pub ensured-Kept :
      (agent : String) (s : WalletBackedSettlement)
      → Kept sha256 c s
      → Kept sha256 c (ensure_account sha256 c agent s).1
  ensured-Kept agent s k = Kept-Opened sha256 c s _ k (ensure_account-Opened sha256 c agent s k)

  pub Kept-pending :
      (d : Dict Parties) (s : WalletBackedSettlement)
      → Kept sha256 c s
      → Kept sha256 c (record s { pending = d })
  Kept-pending d s k = record {
    here = k.here;
    own = k.own;
    amounts = k.amounts;
    vaults = k.vaults;
    covered = k.covered;
  }

  pub seed_client-Kept :
      (client : String) (v : ℤ) (s : WalletBackedSettlement)
      → Kept sha256 c s
      → Kept sha256 c (seed_client sha256 c client v s)
  unfolding seed_client
  seed_client-Kept client v s k =
      let (a, t) = ensure_account sha256 c client s in
      let m = ensured-Kept client s k in
      let same = λ (j : String).
        amount_at-here t.ledger.balances a (key sha256 c) (vault sha256 c j)
          (amount_at t.ledger.balances a (key sha256 c) +ℤ v) in
      record {
        here = m.here;
        own = m.own;
        amounts = m.amounts;
        vaults = λ j. rw (same j, ensured-Outside client s k j) (m.vaults j);
        covered = λ j x p e f g. rw (same j, ensured-Outside client s k j) (m.covered j x p e f g);
      }

  pub bind_parties-Kept :
      (exchange_id client provider : String) (s : WalletBackedSettlement)
      → Kept sha256 c s
      → Kept sha256 c (bind_parties sha256 c exchange_id client provider s)
  unfolding bind_parties
  bind_parties-Kept exchange_id client provider s k =
      Kept-pending (put s.pending exchange_id (record { client = client; provider = provider })) s k
