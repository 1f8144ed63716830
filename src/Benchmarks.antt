-- ===== src/Benchmarks.antt =====
-- The repository's benchmarks: the statistics of benchmarks/run.py.
pub mod Statistics
