-- ===== src/Reputation.antt =====
-- novapanda/reputation.py: the append-only reputation ledger, a hash chain that the node signs.
pub mod Log
