-- ===== src/Settlement.antt =====
-- novapanda/settlement.py: the adapters that hold, pay out and pay back an amount, and the
-- contract that the engine relies on.
pub mod Contract
pub mod Mock
pub mod Gateway
pub mod Sandbox
