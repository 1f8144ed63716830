-- ===== src/Identity.antt =====
-- sentinelmcp/gateway/identity.py: Bearer API-key authentication.
pub mod Resolver
pub mod Middleware
