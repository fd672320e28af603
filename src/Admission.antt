-- ===== src/Admission.antt =====
-- border/admission.py: the admission controller, the bindings of an entry stamp, and the Gate's recheck.
pub mod Base
pub mod Validation
pub mod Controller
pub mod Gate
pub mod Facts
pub mod Acceptance
