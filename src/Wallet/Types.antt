-- ===== src/Wallet/Types.antt =====
-- novapanda/wallet/types.py and `WalletError`, as far as the ledger, the accounts and the bridge use them.
use novapanda.Base.{ℕ, String, Bool, Option}
use novapanda.Base.Int.{ℤ}
use novapanda.Base.Texts.{text_or}
use novapanda.Canonical.Text.{◌⋅◌, decimal}

pub data ChainFamily : Type 0 where
  evm solana : ChainFamily

pub record ChainRef : Type 0 where
  pub chain_id : String
  pub family : ChainFamily

-- `ChainRef.evm`
abbrev pub evm_chain : ℕ → ChainRef
evm_chain numeric_id = record { chain_id = "eip155:" ⋅ decimal numeric_id; family = evm }

pub record AssetRef : Type 0 where
  pub chain : ChainRef
  pub symbol : String
  pub decimals : ℕ
  pub token_address : Option String

pub record TransferRequest : Type 0 where
  pub asset : AssetRef
  pub to_address : String
  pub amount : ℤ

pub record TxReceipt : Type 0 where
  pub chain_id : String
  pub tx_hash : String
  pub status : String

pub record GasQuote : Type 0 where
  pub chain_id : String
  pub native_gas_estimate : ℕ
  pub native_symbol : String
  pub token_fee : Option ℤ
  pub paymaster_available : Bool

-- what the ledger, the paymaster and the manager raise
pub data WalletError : Type 0 where
  chain_mismatch insufficient_balance paymaster_mismatch paymaster_underfunded no_adapter :
      WalletError

-- `token_address or symbol`, the second part of a key of the ledger
abbrev pub asset_key : AssetRef → String
asset_key asset = text_or asset.token_address asset.symbol
