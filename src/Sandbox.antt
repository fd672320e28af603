-- ===== src/Sandbox.antt =====
-- border/live_sandbox.py: the composition of OAuth, Border, Gate and a durable runtime.
pub mod Runtime
