-- ===== src/Authority.antt =====
-- border/authority_adapter.py: provider material mapped into the neutral envelope, and its bindings.
pub mod Profile
pub mod Envelope
pub mod Soundness
