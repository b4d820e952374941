-- ===== src/Delegation.antt =====
-- novapanda/delegate.py: what an agent may do for another.
pub mod Credentials
pub mod Periods
pub mod Registry
pub mod Outcomes
pub mod Quota
pub mod Charges
pub mod Within
pub mod Revoked
