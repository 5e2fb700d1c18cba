-- ===== src/Tests.antt =====
-- Runs of the modelled code at concrete inputs, and the theorems at inputs that meet their
-- hypotheses.
mod Data
mod Wal
mod VectorStore
mod Hnsw
mod HnswFiles
mod Filter
mod Paged
mod Kernels
mod Bindings
mod Threads
mod Cli
mod Exact
mod Metadata
mod Session
