-- ===== src/Wallet/Bridge/Covered.antt =====
-- What the vaults of `WalletBackedSettlement` of novapanda/wallet/settlement_bridge.py hold.
use mathlib.Core.Option.{some-injective}
use text.Mathlib.TextLemmas.{append_cancel_left, cons-append}
use Prim.Native.Char.{code}
use novapanda.Base.{
  ℕ, String, false, some, ◌==◌, ◌≡◌, ◌≢◌, inl, inr, refl, sym, ap, ◌∙◌, arith, eq_iff, Bool-cases,
  Option-cases,
}
use novapanda.Base.Int.{ℤ, ◌≤ℤ◌}
use novapanda.Base.Dict.{get, get-put}
use novapanda.Canonical.Text.{◌⋅◌}
use novapanda.Settlement.Contract.{held}
use novapanda.Wallet.Types.{ChainFamily, evm, solana, asset_key}
use novapanda.Wallet.Ledger.{InMemoryChainAdapter, amount_at}
use novapanda.Wallet.Ledger.Sums.{Natural}
use novapanda.Wallet.Bridge.{
  Parties, WalletHold, BridgeConfig, WalletBackedSettlement, on_ledger, vault, family_address,
  address_of, asset, ensure_account, prefix,
}

pub same_vault : (h k : String) → "escrow:" ⋅ h ≡ "escrow:" ⋅ k → h ≡ k
same_vault h k e = append_cancel_left "escrow:" h k e

abbrev first_code : String → ℕ
first_code String.[] = 0
first_code (String.◌∷◌ a s) = code a

module _ (sha256 : String → String) (c : BridgeConfig) where
  family_not_vault : (f : ChainFamily) (d h : String) → family_address sha256 c f d ≢ "escrow:" ⋅ h
  family_not_vault evm d h e =
      let q : 48 ≡ 101 =
        ap first_code (sym (cons-append "0" "x" (prefix 40 d)) ∙ e ∙ cons-append "e" "scrow:" h) in
      omega (arith, q)
  family_not_vault solana d h e =
      let q : 115 ≡ 101 =
        ap first_code (sym (cons-append "s" "ol" (prefix 40 d)) ∙ e ∙ cons-append "e" "scrow:" h) in
      omega (arith, q)

  abbrev pub key : String
  key = asset_key (asset sha256 c)

  -- `address` is of an account
  abbrev pub Outside : String → Type 0
  Outside address = (h : String) → (address == vault sha256 c h) ≡ false

  pub address_of-Outside : (agent_id : String) → Outside (address_of sha256 c agent_id)
  address_of-Outside agent_id h =
      elim (Bool-cases (address_of sha256 c agent_id == vault sha256 c h)) [
        | inl same ↦ absurd (family_not_vault c.chain.family _ h ((eq_iff _ _).0 same))
        | inr other ↦ other
      ]

  -- what is on the ledger at an address
  abbrev pub at_address : String → WalletBackedSettlement → ℤ
  at_address a s = amount_at s.ledger.balances a key

  -- What holds of the bridge between two calls. A hold that is held is covered by its vault.
  pub record Kept (s : WalletBackedSettlement) : Type 0 where
    pub here : s.ledger.chain ≡ c.chain
    pub own :
        (agent address : String)
        → get s.accounts agent ≡ some address
        → address ≡ address_of sha256 c agent
    pub amounts : (h : String) (x : WalletHold) → get s.holds h ≡ some x → Natural x.amount
    pub vaults : (h : String) → Natural (at_address (vault sha256 c h) s)
    pub covered :
        (h : String) (x : WalletHold) (p : Parties)
        → get s.holds h ≡ some x
        → x.status ≡ held
        → on_ledger x ≡ some p
        → x.amount ≤ℤ at_address (vault sha256 c h) s

  -- Only accounts are opened.
  pub record Opened (s s' : WalletBackedSettlement) : Type 0 where
    pub holds : s'.holds ≡ s.holds
    pub pending : s'.pending ≡ s.pending
    pub ledger : s'.ledger ≡ s.ledger
    pub own :
        (agent address : String)
        → get s'.accounts agent ≡ some address
        → address ≡ address_of sha256 c agent

  pub Kept-Opened : (s s' : WalletBackedSettlement) → Kept s → Opened s s' → Kept s'
  Kept-Opened s s' k o = record {
    here = ap (λ (l : InMemoryChainAdapter). l.chain) o.ledger ∙ k.here;
    own = o.own;
    amounts = λ h x e. k.amounts h x (rw o.holds at e);
    vaults = λ h. rw o.ledger (k.vaults h);
    covered = λ h x p e f g. rw o.ledger (k.covered h x p (rw o.holds at e) f g);
  }

  pub ensure_account-address :
      (agent : String) (s : WalletBackedSettlement)
      → Kept s
      → (ensure_account sha256 c agent s).0 ≡ address_of sha256 c agent
  unfolding ensure_account
  ensure_account-address agent s k = elim (Option-cases (get s.accounts agent)) [
    | inl e ↦ rw (e, ensure_account) refl
    | inr (a, e) ↦ rw (e, ensure_account) (k.own agent a e)
  ]

  pub ensure_account-Opened :
      (agent : String) (s : WalletBackedSettlement)
      → Kept s
      → Opened s (ensure_account sha256 c agent s).1
  unfolding ensure_account
  ensure_account-Opened agent s k = elim (Option-cases (get s.accounts agent)) [
    | inr (a, e) ↦
        rw (e, ensure_account) (record { holds = refl; pending = refl; ledger = refl; own = k.own })
    | inl e ↦
        rw (e, ensure_account)
          (record {
            holds = refl;
            pending = refl;
            ledger = refl;
            own = λ other address f. elim (Bool-cases (agent == other)) [
              | inl same ↦ rw (← (eq_iff agent other).0 same) (
                  sym
                    (some-injective (address_of sha256 c agent) address (rw (get-put, same) at f)))
              | inr differs ↦ k.own other address (rw (get-put, differs) at f)
            ];
          })
  ]
