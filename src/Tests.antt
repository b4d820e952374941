-- ===== src/Tests.antt =====
-- One exchange on the mock rail, from the proposal to the verification, and the theorems applied to it.
pub mod Autonomy
pub mod Rails
pub mod Composers
pub mod Delegations
pub mod Wallets
pub mod Claims
pub mod Canonicals
pub mod Scene
pub mod Calls
pub mod Sweeps
pub mod Engines
pub mod Parts
pub mod Stores
pub mod Stakes
