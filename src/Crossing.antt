-- ===== src/Crossing.antt =====
-- conformance/a2a-mcp-crossing-v2/runner/reference.py: the verifier of a crossing from A2A to MCP.
pub mod Json
pub mod Inputs
pub mod Verifier
pub mod Stage
pub mod Soundness
pub mod Replay
