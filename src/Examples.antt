-- ===== src/Examples.antt =====
-- The repository's examples: the upstream server of examples/upstream_server.py and the client of
-- examples/demo.py.
pub mod UpstreamServer
pub mod Demo
