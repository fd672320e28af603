-- ===== src/Mandate.antt =====
-- border/mandate_adapter.py: the adapter for authorized invocation.
pub mod Checks
pub mod Adapter
pub mod Gate
pub mod Soundness
pub mod Invocation
pub mod Replay
pub mod Recheck
