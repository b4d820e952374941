-- ===== src/Delegation/Within.antt =====
-- The quota of a delegation in `validate_action` of novapanda/delegate.py.
