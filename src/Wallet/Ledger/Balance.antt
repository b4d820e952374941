-- ===== src/Wallet/Ledger/Balance.antt =====
-- What the calls of the ledger of novapanda/wallet/manager.py leave of the balances.
use novapanda.Base.{ℕ, ◌*◌, String, List, [], ◌∷◌, ◌==◌, inl, inr, arith, Bool-cases}
use novapanda.Base.Int.{pos, ltb_ℤ}
use novapanda.Base.Exec.{Result-cases}
use novapanda.Base.Seq.{All}
use novapanda.Wallet.Types.{ChainRef, AssetRef, TransferRequest, asset_key}
use novapanda.Wallet.Ledger.{
  amount_at, InMemoryChainAdapter, transfer, get_balance, sponsor, transfer_with_paymaster, pay_fee,
  fee_request, estimate_gas,
}
use novapanda.Wallet.Ledger.Sums.{
  Natural, SameSum, IsSolvent, move_amount-SameSum, move_amount-IsSolvent,
}

-- What a call leaves: the sums as they were, and no overdraft where its amounts are `fine`.
pub record Balanced (fine : Type 0) (a b : InMemoryChainAdapter) : Type 0 where
  pub sums : (q : String) → SameSum a.balances b.balances q
  pub solvency : fine → IsSolvent a.balances → IsSolvent b.balances

Balanced-refl : {P : Type 0} (a : InMemoryChainAdapter) → Balanced P a a
Balanced-refl a = record { sums = λ q. omega arith; solvency = λ p h. h }

Balanced-trans :
    {P Q S : Type 0} (a b c : InMemoryChainAdapter)
    → (S → P)
    → (S → Q)
    → Balanced P a b
    → Balanced Q b c
    → Balanced S a c
Balanced-trans a b c f g x y = record {
  sums = λ q. omega (arith, x.sums q, y.sums q);
  solvency = λ s h. y.solvency (g s) (x.solvency (f s) h);
}

-- the requests of users to an account, or between addresses
pub data WalletCall : Type 0 where
  transfer_call : (uuid from : String) → TransferRequest → WalletCall
  paymaster_call :
      (rate : ℕ) (uuid address : String) → ChainRef → TransferRequest → AssetRef → WalletCall

abbrev pub NaturalCall : WalletCall → Type 0
NaturalCall (transfer_call uuid from req) = Natural req.amount
NaturalCall (paymaster_call rate uuid address chain req fee_token) = Natural req.amount

module _ (sha256 : String → String) where
  transfer-Balanced :
      (uuid from : String) (req : TransferRequest) (a : InMemoryChainAdapter)
      → Balanced (Natural req.amount) a (transfer sha256 uuid from req a).1
  unfolding transfer
  transfer-Balanced uuid from req a =
      elim (Bool-cases (req.asset.chain.chain_id == a.chain.chain_id)) [
        | inr other ↦ rw other (Balanced-refl a)
        | inl here ↦
            elim (Bool-cases (ltb_ℤ (amount_at a.balances from (asset_key req.asset)) req.amount)) [
              | inl short ↦ rw (here, short) (Balanced-refl a)
              | inr enough ↦
                  rw (here, enough)
                    (record {
                      sums = λ q.
                          move_amount-SameSum from req.to_address (asset_key req.asset) q req.amount
                            a.balances;
                      solvency = λ nonneg.
                          move_amount-IsSolvent from req.to_address (asset_key req.asset) req.amount
                            a.balances nonneg enough;
                    })
            ]
      ]

  pay_fee-Balanced :
      (uuid payer : String) (fee_token : AssetRef) (fee : ℕ) (a : InMemoryChainAdapter)
      → Balanced Unit a (pay_fee sha256 uuid payer fee_token (pos fee) a).1
  unfolding pay_fee
  pay_fee-Balanced uuid payer fee_token fee a =
      elim (Result-cases (get_balance payer fee_token a)) [
        | inr (e, f) ↦ rw (f, pay_fee) (Balanced-refl a)
        | inl (bal, f) ↦ elim (Bool-cases (ltb_ℤ bal (pos fee))) [
          | inl short ↦ rw (f, short, pay_fee) (Balanced-refl a)
          | inr enough ↦
              let req = fee_request sha256 fee_token (pos fee) in
              let b = transfer-Balanced uuid payer req a in
              elim (Result-cases (transfer sha256 uuid payer req a).0) [
                | inr (e, g) ↦
                    rw (f, enough, g, pay_fee)
                      (Balanced-trans a a _ (λ _. tt) (λ _. omega arith) (Balanced-refl a) b)
                | inl (x, g) ↦
                    rw (f, enough, g, pay_fee)
                      (Balanced-trans a a _ (λ _. tt) (λ _. omega arith) (Balanced-refl a) b)
              ]
        ]
      ]

  sponsor-Balanced :
      (rate : ℕ) (uuid payer : String) (chain : ChainRef) (fee_token : AssetRef) (gas : ℕ)
      (a : InMemoryChainAdapter)
      → Balanced Unit a (sponsor sha256 rate uuid payer chain fee_token gas a).1
  unfolding sponsor
  sponsor-Balanced rate uuid payer chain fee_token gas a =
      elim (Bool-cases (chain.chain_id == a.chain.chain_id)) [
        | inr other ↦ rw (other, sponsor) (Balanced-refl a)
        | inl here ↦ rw (here, sponsor) (pay_fee-Balanced uuid payer fee_token (gas * rate) a)
      ]

  unfoldable pub serve : WalletCall → InMemoryChainAdapter → InMemoryChainAdapter
  serve (transfer_call uuid from req) a = (transfer sha256 uuid from req a).1
  serve (paymaster_call rate uuid address chain req fee_token) a =
      (transfer_with_paymaster sha256 rate uuid address chain req fee_token a).1

  unfoldable pub serve_all : List WalletCall → InMemoryChainAdapter → InMemoryChainAdapter
  serve_all [] a = a
  serve_all (c ∷ cs) a = serve_all cs (serve c a)

  serve-Balanced :
      (c : WalletCall) (a : InMemoryChainAdapter) → Balanced (NaturalCall c) a (serve c a)
  unfolding serve transfer_with_paymaster
  serve-Balanced (transfer_call uuid from req) a = transfer-Balanced uuid from req a
  serve-Balanced (paymaster_call rate uuid address chain req fee_token) a =
      let gas = (estimate_gas sha256 a).native_gas_estimate in
      let s = sponsor-Balanced rate uuid address chain fee_token gas a in
      let a' = (sponsor sha256 rate uuid address chain fee_token gas a).1 in
      elim (Result-cases (sponsor sha256 rate uuid address chain fee_token gas a).0) [
        | inr (e, f) ↦
            rw (f, serve, transfer_with_paymaster)
              (Balanced-trans a a a' (λ p. p) (λ _. tt) (Balanced-refl a) s)
        | inl (u, f) ↦
            rw (f, serve, transfer_with_paymaster)
              (Balanced-trans a a' _ (λ _. tt) (λ p. p) s (transfer-Balanced uuid address req a'))
      ]

  serve_all-Balanced :
      (cs : List WalletCall) (a : InMemoryChainAdapter)
      → Balanced (All NaturalCall cs) a (serve_all cs a)
  unfolding serve_all
  serve_all-Balanced [] a = Balanced-refl a
  serve_all-Balanced (c ∷ cs) a =
      Balanced-trans a (serve c a) _ (λ p. p.0) (λ p. p.1) (serve-Balanced c a)
        (serve_all-Balanced cs (serve c a))

  -- Whatever transfers are asked for, with or without the paymaster, none for an amount below zero, and
  -- whether they fail or not, from balances none of which is below zero: for each asset, the balances
  -- sum up to what they did, and none is below zero.
  pub serve_all-SameSum :
      (cs : List WalletCall) (a : InMemoryChainAdapter)
      → All NaturalCall cs
      → IsSolvent a.balances
      → ((q : String) → SameSum a.balances (serve_all cs a).balances q)
        × IsSolvent (serve_all cs a).balances
  serve_all-SameSum cs a natural h =
      let b = serve_all-Balanced cs a in (b.sums, b.solvency natural h)
