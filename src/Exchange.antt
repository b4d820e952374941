-- ===== src/Exchange.antt =====
-- novapanda/exchange.py with its store and its terms: the engine that drives an exchange.
pub mod Fields
pub mod Terms
pub mod Store
pub mod Engine
pub mod Deliverables
pub mod Methods
pub mod Closing
pub mod Upkeep
pub mod Requests
pub mod Queries
