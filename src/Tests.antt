-- ===== src/Tests.antt =====
-- Concrete runs of the model, and the theorems at inputs that meet their hypotheses.
mod Runtime
mod Admission
mod Continuity
mod Crossing
mod Mandate
mod MandateGate
mod Protocol
mod SubjectLink
mod Authority
mod Web
mod Ceiling
mod Server
mod Client
mod Sandbox
mod Underwriting
mod CrossingV1
mod CrossingReceipt
mod ReferenceAuthorities
mod Jcs
