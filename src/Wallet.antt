-- ===== src/Wallet.antt =====
-- novapanda/wallet: the ledger in memory and its accounts (types.py, manager.py), and the settlement
-- over it (settlement_bridge.py).
pub mod Types
pub mod Ledger
pub mod Bridge
