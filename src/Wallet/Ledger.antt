-- ===== src/Wallet/Ledger.antt =====
-- `InMemoryChainAdapter`, `UsdcPaymaster` over the same ledger, and `InMemorySmartAccount`, of
-- novapanda/wallet/manager.py. The texts that `uuid4` gives are arguments.
pub mod Sums
pub mod Balance
use novapanda.Base.{
  ℕ, ◌+◌, ◌*◌, String, Bool, true, false, not, ◌&&◌, ◌||◌, Option, none, some, List, [], ◌∷◌, ◌==◌,
  if◌then◌else◌,
}
use novapanda.Base.Int.{ℤ, pos, negsuc, pos_part, neg_part, sub_ℕ, ◌+ℤ◌, ltb_ℤ}
use novapanda.Base.Exec.{Result, ok, err, Exec}
use novapanda.Canonical.Text.{◌⋅◌, int_text}
use novapanda.Canonical.Value.{Json}
use novapanda.Wallet.Types.{
  ChainFamily, evm, solana, ChainRef, AssetRef, TransferRequest, TxReceipt, GasQuote, WalletError,
  chain_mismatch, insufficient_balance, paymaster_mismatch, paymaster_underfunded, asset_key,
}

-- An entry of `_balances`, whose key is an address and an asset.
pub record Entry : Type 0 where
  pub address : String
  pub asset : String
  pub amount : ℤ

abbrev pub is_at : String → String → Entry → Bool
is_at address asset e = e.address == address && e.asset == asset

-- `_balances.get(key, 0)`
unfoldable pub amount_at : List Entry → String → String → ℤ
amount_at [] address asset = pos 0
amount_at (e ∷ es) address asset =
    if is_at address asset e then e.amount else amount_at es address asset

-- `_balances[key] = amount`
unfoldable pub set_amount : List Entry → String → String → ℤ → List Entry
set_amount [] address asset v = (record { address = address; asset = asset; amount = v }) ∷ []
set_amount (e ∷ es) address asset v =
    let rest = set_amount es address asset v in
    if is_at address asset e then (record e { amount = v }) ∷ es else e ∷ rest

pub record InMemoryChainAdapter : Type 0 where
  pub chain : ChainRef
  pub native_symbol : String
  pub balances : List Entry

-- `a - b`
abbrev pub minus : ℤ → ℤ → ℤ
minus a b = sub_ℕ (pos_part a + neg_part b) (neg_part a + pos_part b)

-- the key gets the amount on top
abbrev pub add_to : List Entry → String → String → ℤ → List Entry
add_to es address asset amount = set_amount es address asset (amount_at es address asset +ℤ amount)

abbrev pub credit : String → AssetRef → ℤ → InMemoryChainAdapter → InMemoryChainAdapter
credit address asset amount a = record a {
  balances = add_to a.balances address (asset_key asset) amount;
}

abbrev pub same_chain : ChainRef → ChainRef → Bool
same_chain c d = c.chain_id == d.chain_id

unfoldable pub get_balance : String → AssetRef → InMemoryChainAdapter → Result WalletError ℤ
get_balance address asset a =
    if same_chain asset.chain a.chain
    then ok (amount_at a.balances address (asset_key asset))
    else err chain_mismatch

-- the two assignments of `transfer`: the payer's balance is read before, the payee's after the first
unfoldable pub move_amount : String → String → String → ℤ → List Entry → List Entry
move_amount from to asset amount es =
    add_to (set_amount es from asset (minus (amount_at es from asset) amount)) to asset amount

module _ (sha256 : String → String) where
  abbrev pub tx_of : String → String → TransferRequest → InMemoryChainAdapter → TxReceipt
  tx_of uuid from req a = record {
    chain_id = a.chain.chain_id;
    tx_hash = "0x" ⋅ sha256 (from ⋅ ":" ⋅ req.to_address ⋅ ":" ⋅ int_text req.amount ⋅ ":" ⋅ uuid);
    status = "confirmed";
  }

  unfoldable pub transfer :
      (uuid from : String) → TransferRequest → Exec InMemoryChainAdapter WalletError TxReceipt
  transfer uuid from req a =
      if not (same_chain req.asset.chain a.chain)
      then (err chain_mismatch, a)
      else if ltb_ℤ (amount_at a.balances from (asset_key req.asset)) req.amount
      then (err insufficient_balance, a)
      else (
        ok (tx_of uuid from req a),
        record a {
          balances = move_amount from req.to_address (asset_key req.asset) req.amount a.balances;
        },
      )

  abbrev gas_of : ChainFamily → ℕ
  gas_of evm = 21000
  gas_of solana = 5000

  abbrev pub estimate_gas : InMemoryChainAdapter → GasQuote
  estimate_gas a = record {
    chain_id = a.chain.chain_id;
    native_gas_estimate = gas_of a.chain.family;
    native_symbol = a.native_symbol;
    token_fee = none;
    paymaster_available = false;
  }

  abbrev fee_of : ℕ → ℕ → ℤ
  fee_of rate gas = pos (gas * rate)

  -- `quote` of `UsdcPaymaster`, whose `token_per_gas_unit` is `rate`
  abbrev pub quote : ℕ → ChainRef → ℕ → InMemoryChainAdapter → Result WalletError GasQuote
  quote rate chain gas a =
      if same_chain chain a.chain
      then ok (record {
        chain_id = chain.chain_id;
        native_gas_estimate = gas;
        native_symbol = a.native_symbol;
        token_fee = some (fee_of rate gas);
        paymaster_available = true;
      })
      else err paymaster_mismatch

  abbrev pub fee_request : AssetRef → ℤ → TransferRequest
  fee_request fee_token fee = record {
    asset = fee_token;
    to_address = "paymaster:treasury";
    amount = fee;
  }

  unfoldable pub pay_fee :
      String → String → AssetRef → ℤ → Exec InMemoryChainAdapter WalletError Unit
  pay_fee uuid payer fee_token fee a = elim (get_balance payer fee_token a) [
    | err e ↦ (err e, a)
    | ok bal ↦
        if ltb_ℤ bal fee
        then (err paymaster_underfunded, a)
        else let (r, a') = transfer uuid payer (fee_request fee_token fee) a in
          elim r [ err e ↦ (err e, a') | ok _ ↦ (ok tt, a') ]
  ]

  -- `sponsor`; its receipt only repeats what it was given
  unfoldable pub sponsor :
      ℕ
      → (uuid payer : String) → ChainRef
      → AssetRef
      → ℕ
      → Exec InMemoryChainAdapter WalletError Unit
  unfolding pay_fee
  sponsor rate uuid payer chain fee_token gas a = elim (quote rate chain gas a) [
    | err e ↦ (err e, a)
    | ok q ↦ pay_fee uuid payer fee_token (fee_of rate gas) a
  ]

  -- `transfer_with_paymaster` of an account at `address`
  unfoldable pub transfer_with_paymaster :
      ℕ
      → (uuid address : String) → ChainRef
      → TransferRequest
      → AssetRef
      → Exec InMemoryChainAdapter WalletError TxReceipt
  transfer_with_paymaster rate uuid address chain req fee_token a =
      let (r, a') =
        sponsor rate uuid address chain fee_token (estimate_gas a).native_gas_estimate a in
      elim r [ err e ↦ (err e, a') | ok _ ↦ transfer uuid address req a' ]
