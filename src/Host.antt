-- ===== src/Host.antt =====
-- The host that the program runs on, as parameters, and the hashes built on it.
pub mod Params
pub mod Hashing
