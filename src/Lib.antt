-- ===== src/Lib.antt =====
-- Border (border/, conformance/): admission records for one exact agent action.
--
-- The controller of border/admission.py checks a declaration, an authority receipt, a runtime policy
-- and an optional human control event, and issues a receipt that binds them by digest; a Gate
-- rechecks that receipt before the action. border/intent_continuity.py follows a Mandate through a
-- chain of delegations to one final effect. border/mandate_adapter.py binds the authority to request
-- an action and the authority to execute it into one receipt. The verifier of
-- conformance/a2a-mcp-crossing-v2 decides on a crossing from A2A to MCP and spends its authority.
-- The OpenID gateway of border/openid_gateway.py answers MCP requests over HTTP for a host that
-- authorizes, admits and executes them, and asks for access to other such resources as a client; a
-- token becomes an authority receipt in border/openid_aiim.py. The runtime of border/live_sandbox.py
-- carries an action out once, and border/underwriting.py reports on what an admission has bound.
-- Documents are decoded JSON values, digested over the canonical text of border/jcs.py, and stamps
-- are the DSSE envelopes of border/dsse.py.
--
-- Files.
--   Prelude, Py, Platform
--                      shared names; Python values, exceptions as results, text, times and their
--                      laws; the runtime's functions
--   Jcs                border/jcs.py; Text describes its profile and the text of a value in it
--   Admission          border/admission.py: Base (digests, fields), Validation (the four checks),
--                      Controller (`admit` and its memory), Gate (`stamp_bindings` and
--                      `verify_gate_context`); Facts states what the checks establish
--   Continuity         border/intent_continuity.py: Scope (bounded sets and effects), Chain
--                      (`prove_intent_continuity`, its loop as `walk` over `step`), Stamp
--   Crossing           conformance/a2a-mcp-crossing-v2/runner/reference.py: Json, Inputs (the
--                      contract of the inputs), Verifier (`CrossingVerifier.verify` and the store)
--   Dsse               border/dsse.py, but for the wrappers of the Ed25519 library
--   Mandate            border/mandate_adapter.py: Checks, Adapter (`normalize` and its memory), Gate
--                      (`mandate_statement`, `verify_mandate_gate_context`)
--   Protocol           border/protocol_continuity.py
--   Authority          border/authority_adapter.py: Profile (paths, `analyze_profile`), Envelope
--                      (`normalize` and `_validate_bindings`)
--   SubjectLink        border/subject_link.py
--   Sandbox            border/live_sandbox.py: Runtime (`SQLiteEchoRuntime`, its two tables and its
--                      methods; Once, Grants and Bounds follow histories of calls, Refinement has the
--                      ledger that the table of actions implements)
--   Openid             border/openid_aiim.py and border/openid_gateway.py: Web (the standard library's
--                      functions for the web, as parameters), Aiim (metadata and authority), Http
--                      (responses and requests), Server (a tool call; Routes has `handle`, Wsgi has
--                      `wsgi`), Client (`call`; Begin, Complete and Discovery the rest of
--                      `OAuthMcpClient`)
--   Underwriting       border/underwriting.py: `_bound` and `_chain`, Questions and Controls (the ten
--                      questions), Report (`assess` and the report's lists)
--   CrossingV1         conformance/a2a-mcp-crossing-v1/runner/reference.py
--   CrossingReceipt    conformance/crossing_receipt.py
--   ReferenceAuthorities
--                      border/reference_authorities.py
--   Tests              concrete runs, and the theorems at inputs that meet their hypotheses
--
-- How the code is read. A function that raises returns a `Result`; a method that mutates returns the
-- new state beside its result. A `dict` is a list of entries in the order of insertion, `==` on
-- values is Python's, a callback is a function that may raise, and a clock reading is an argument.
-- SHA-256, HMAC, ISO 8601 parsing and printing, base64 and JSON decoding are fields of `Platform`;
-- URL parsing, decoding with a hook, numeric dates and the classes of characters are fields of
-- `Web`; `str` and `repr` of any value are fields of `Printer`.
-- Floats are carried by their `repr`. A table of SQLite is a list of rows or of keys, and a method
-- that opens a transaction is one step; what is left out of a row is not read by any code. The
-- callbacks of the gateway's server are functions on a state of the host, and the client's transport
-- is one on a state of the world. The random bytes of the client are arguments. No fuel is used but
-- in the decimal printer, which takes one round more than the number it prints.
--
-- Not modelled: the rest of border/live_sandbox.py (settings, the checkpoint over another package's
-- controller, JWT and key files) and border/openid_evidence.py; the transport over urllib; the
-- command-line tools, the conformance runners and the experiments, which are input and output around
-- these functions; the Ed25519 functions, which wrap a library; conformance/rehearsal_receipt.py.
mod Prelude
pub mod Py
pub mod Platform
pub mod Jcs
pub mod Admission
pub mod Continuity
pub mod Crossing
pub mod Dsse
pub mod Mandate
pub mod Protocol
pub mod SubjectLink
pub mod Authority
pub mod Sandbox
pub mod Openid
pub mod Underwriting
pub mod CrossingV1
pub mod CrossingReceipt
pub mod ReferenceAuthorities
pub mod Tests
