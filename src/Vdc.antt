-- ===== src/Vdc.antt =====
-- novapanda/vdc.py: the verifiable delivery credential, its two signatures and their check.
pub mod Document
pub mod Sign
