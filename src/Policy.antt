-- ===== src/Policy.antt =====
-- sentinelmcp/policy: the policy configuration and the decisions made from it.
pub mod Models
pub mod Engine
pub mod Schema
pub mod Loading
