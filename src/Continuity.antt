-- ===== src/Continuity.antt =====
-- border/intent_continuity.py: continuity of a Mandate across delegations.
pub mod Scope
pub mod Chain
pub mod Narrowing
pub mod Allowed
pub mod Effect
pub mod Links
pub mod Stamp
