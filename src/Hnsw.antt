-- ===== src/Hnsw.antt =====
-- src/hnsw.cpp, include/hnsw.hpp: the layered proximity graph. A step of a method that holds a lock
-- is one step here; the methods run one after another.
pub mod State
pub mod Links
pub mod Invariant
pub mod Tombstones
pub mod Queue
pub mod Layer
pub mod Insert
pub mod Query
pub mod Threads
pub mod Storage
pub mod Compact
