-- ===== src/Bridge.antt =====
-- sentinelmcp/gateway/bridge.py: filtered `tools/list` and authorized `tools/call`.
pub mod Results
pub mod State
pub mod Cache
pub mod ListTools
pub mod Visibility
pub mod Turns
pub mod Placing
pub mod CallTool
pub mod Flight
pub mod Authenticated
pub mod Runs
