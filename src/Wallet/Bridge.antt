-- ===== src/Wallet/Bridge.antt =====
-- `WalletBackedSettlement` of novapanda/wallet/settlement_bridge.py with the accounts of
-- `DefaultAgentWalletManager`, as it makes them: one chain, whose ledger is in memory. The keys
-- `pending:…` of `_holds` are a dict of their own, as no handle starts so.
pub mod Covered
pub mod Calls
pub mod Payments
pub mod Payouts
pub mod Releases
pub mod Adapter
use novapanda.Base.{
  ℕ, suc, String, Bool, true, false, not, ◌&&◌, ◌||◌, Option, none, some, List, [], ◌∷◌, ◌==◌,
  if◌then◌else◌,
}
use novapanda.Base.Int.{ℤ, pos, ltb_ℤ}
use novapanda.Base.Dict.{Dict, get, put}
use novapanda.Base.Exec.{Result, ok, err, Exec}
use novapanda.Canonical.Text.{◌⋅◌}
use novapanda.Settlement.Contract.{Status, held, settled, refunded, Receipt}
use novapanda.Settlement.Mock.{same_status}
use novapanda.Wallet.Types.{
  ChainFamily, evm, solana, ChainRef, AssetRef, TransferRequest, TxReceipt, WalletError, asset_key,
}
use novapanda.Wallet.Ledger.{InMemoryChainAdapter, amount_at, credit, transfer}

pub record Parties : Type 0 where
  pub client : String
  pub provider : String

-- A dict of `_holds`; `parties` where "ledger" is true.
pub record WalletHold : Type 0 where
  pub exchange_id : String
  pub amount : ℤ
  pub currency : String
  pub status : Status
  pub parties : Option Parties

-- the fields that stay
pub record BridgeConfig : Type 0 where
  pub rail : String
  pub chain : ChainRef
  pub asset_symbol : String
  pub asset_decimals : ℕ

-- `accounts` has the addresses, by the agent.
pub record WalletBackedSettlement : Type 0 where
  pub holds : Dict WalletHold
  pub pending : Dict Parties
  pub accounts : Dict String
  pub ledger : InMemoryChainAdapter

pub data BridgeError : Type 0 where
  negative_escrow unknown_escrow escrow_conflict vault_underfunded : BridgeError
  from_wallet : WalletError → BridgeError

-- `s[:n]`
unfoldable pub prefix : ℕ → String → String
prefix (suc n) (String.◌∷◌ c s) = String.◌∷◌ c (prefix n s)
prefix _ _ = String.[]

-- `del d[key]`
unfoldable pub without {ℓ} : {V : Type ℓ} → String → Dict V → Dict V
without key [] = []
without key ((k, v) ∷ d) = let rest = without key d in if k == key then d else (k, v) ∷ rest

-- the parties of a hold that is on the ledger, which must not be empty
unfoldable pub on_ledger : WalletHold → Option Parties
on_ledger x = elim x.parties [
  | none ↦ none
  | some p ↦ if p.client == "" || p.provider == "" then none else some p
]

module _ (sha256 : String → String) (c : BridgeConfig) where
  abbrev pub asset : AssetRef
  asset = record {
    chain = c.chain;
    symbol = c.asset_symbol;
    decimals = c.asset_decimals;
    token_address = none;
  }

  -- `_escrow_address`
  abbrev pub vault : String → String
  vault handle = "escrow:" ⋅ handle

  abbrev pub family_address : ChainFamily → String → String
  family_address evm digest = "0x" ⋅ prefix 40 digest
  family_address solana digest = "sol" ⋅ prefix 40 digest

  abbrev pub address_of : String → String
  address_of agent_id = family_address c.chain.family (sha256 (agent_id ⋅ ":" ⋅ c.chain.chain_id))

  -- `__post_init__`
  abbrev pub new_bridge : WalletBackedSettlement
  new_bridge = record {
    holds = [];
    pending = [];
    accounts = [];
    ledger = record { chain = c.chain; native_symbol = c.asset_symbol; balances = [] };
  }

  abbrev pub open_account : String → WalletBackedSettlement → WalletBackedSettlement
  open_account agent_id s = record s { accounts = put s.accounts agent_id (address_of agent_id) }

  -- `ensure_account`, with the address of the account
  unfoldable pub ensure_account : String → WalletBackedSettlement → String × WalletBackedSettlement
  unfolding prefix
  ensure_account agent_id s = elim (get s.accounts agent_id) [
    | some address ↦ (address, s)
    | none ↦ (address_of agent_id, open_account agent_id s)
  ]

  unfoldable pub seed_client : String → ℤ → WalletBackedSettlement → WalletBackedSettlement
  unfolding ensure_account
  seed_client client amount s =
      let (address, s') = ensure_account client s in
      record s' { ledger = credit address asset amount s'.ledger }

  unfoldable pub bind_parties :
      (exchange_id client provider : String) → WalletBackedSettlement → WalletBackedSettlement
  bind_parties exchange_id client provider s = record s {
    pending = put s.pending exchange_id (record { client = client; provider = provider });
  }

  abbrev pub handle_of : String → String
  handle_of uuid = "wallet-escrow-" ⋅ uuid

  abbrev pub open_hold : String → WalletHold → WalletBackedSettlement → WalletBackedSettlement
  open_hold handle x s = record s { holds = put s.holds handle x }

  abbrev pub new_hold : String → ℤ → String → Option Parties → WalletHold
  new_hold exchange_id amount currency parties = record {
    exchange_id = exchange_id;
    amount = amount;
    currency = currency;
    status = held;
    parties = parties;
  }

  abbrev pub request : String → ℤ → TransferRequest
  request to amount = record { asset = asset; to_address = to; amount = amount }

  abbrev pub noted :
      WalletBackedSettlement
      → Result WalletError TxReceipt × InMemoryChainAdapter
      → Result BridgeError Unit × WalletBackedSettlement
  noted s (err e, l) = (err (from_wallet e), record s { ledger = l })
  noted s (ok _, l) = (ok tt, record s { ledger = l })

  -- a transfer on the ledger
  unfoldable pub pay : (uuid from to : String) → ℤ → Exec WalletBackedSettlement BridgeError Unit
  pay uuid from to amount s = noted s (transfer sha256 uuid from (request to amount) s.ledger)

  -- with the accounts of both parties
  abbrev pub with_accounts : Parties → WalletBackedSettlement → String × WalletBackedSettlement
  with_accounts p s =
      let (address, s') = ensure_account p.client s in (address, (ensure_account p.provider s').1)

  -- what `escrow` and `_release` do after the payment
  abbrev pub opened_by :
      String
      → WalletHold
      → Result BridgeError Unit × WalletBackedSettlement
      → Result BridgeError String × WalletBackedSettlement
  opened_by handle x (err e, s) = (err e, s)
  opened_by handle x (ok _, s) =
      (ok handle, open_hold handle x (record s { pending = without x.exchange_id s.pending }))

  unfoldable pub escrow_bound :
      (uuid tx_uuid exchange_id : String)
      → ℤ
      → String
      → Parties
      → Exec WalletBackedSettlement BridgeError String
  unfolding ensure_account without
  escrow_bound uuid tx_uuid exchange_id amount currency p s =
      let (address, s') = with_accounts p s in
      opened_by (handle_of uuid) (new_hold exchange_id amount currency (some p))
        (pay tx_uuid address (vault (handle_of uuid)) amount s')

  unfoldable pub escrow :
      (uuid tx_uuid exchange_id : String)
      → ℤ
      → String
      → Exec WalletBackedSettlement BridgeError String
  escrow uuid tx_uuid exchange_id amount currency s =
      if ltb_ℤ amount (pos 0) then (err negative_escrow, s) else elim (get s.pending exchange_id) [
        | none ↦ (
          ok (handle_of uuid),
          open_hold (handle_of uuid) (new_hold exchange_id amount currency none) s,
        )
        | some p ↦ escrow_bound uuid tx_uuid exchange_id amount currency p s
      ]

  -- `_receipt`
  abbrev pub receipt_of : String → WalletHold → Receipt
  receipt_of handle x = record {
    handle = handle;
    status = x.status;
    amount = x.amount;
    currency = x.currency;
    rail = c.rail;
  }

  abbrev pub payee_of : Bool → Parties → String
  payee_of true p = p.provider
  payee_of false p = p.client

  abbrev pub target_of : Bool → Status
  target_of true = settled
  target_of false = refunded

  unfoldable pub pay_out :
      (uuid handle : String) → ℤ → String → Exec WalletBackedSettlement BridgeError Unit
  pay_out uuid handle amount payee s =
      let (address, s') = ensure_account payee s in
      if ltb_ℤ (amount_at s'.ledger.balances (vault handle) (asset_key asset)) amount
      then (err vault_underfunded, s')
      else pay uuid (vault handle) address amount s'

  abbrev pub pay_parties :
      (uuid handle : String) → WalletHold → Bool → Exec WalletBackedSettlement BridgeError Unit
  pay_parties uuid handle x to_provider s = elim (on_ledger x) [
    | none ↦ (ok tt, s)
    | some p ↦ pay_out uuid handle x.amount (payee_of to_provider p) s
  ]

  abbrev pub closed_by :
      String
      → WalletHold
      → Result BridgeError Unit × WalletBackedSettlement
      → Result BridgeError Receipt × WalletBackedSettlement
  closed_by handle y (err e, s) = (err e, s)
  closed_by handle y (ok _, s) = (ok (receipt_of handle y), open_hold handle y s)

  abbrev pub close_hold :
      (uuid handle : String) → WalletHold → Bool → Exec WalletBackedSettlement BridgeError Receipt
  close_hold uuid handle x to_provider s =
      closed_by handle (record x { status = target_of to_provider })
        (pay_parties uuid handle x to_provider s)

  -- `_release`, which is `settle` to the provider and `refund` to the client
  unfoldable pub release :
      (uuid handle : String) → Bool → Exec WalletBackedSettlement BridgeError Receipt
  unfolding pay_out
  release uuid handle to_provider s = elim (get s.holds handle) [
    | none ↦ (err unknown_escrow, s)
    | some x ↦
        if same_status x.status (target_of to_provider)
        then (ok (receipt_of handle x), s)
        else if not (same_status x.status held)
        then (err escrow_conflict, s)
        else close_hold uuid handle x to_provider s
  ]
