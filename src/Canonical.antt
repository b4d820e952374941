-- ===== src/Canonical.antt =====
-- novapanda/canonical.py: the one byte sequence of a JSON object.
pub mod Value
pub mod Text
pub mod Dump
pub mod Order
pub mod Reordered
pub mod Written
pub mod Independent
