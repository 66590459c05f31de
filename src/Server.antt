-- ===== src/Server.antt =====
-- The provider's server (server/http.py).
pub mod Http
pub mod Stripe
