-- ===== src/Cli.antt =====
-- src/cli.cpp: the command line, a benchmark of the HNSW index against the flat index. What it
-- prints, the clock and the memory figure are left out.
pub mod Number
pub mod Options
pub mod Npy
pub mod Bench
