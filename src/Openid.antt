-- ===== src/Openid.antt =====
-- The OpenID gateway: border/openid_aiim.py, border/openid_gateway.py and border/openid_evidence.py.
pub mod Web
pub mod Aiim
pub mod Http
pub mod Server
pub mod Client
pub mod Ceiling
