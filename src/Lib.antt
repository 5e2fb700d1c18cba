-- ===== src/Lib.antt =====
-- NeuralDB, a vector database in C++: models of its parts and the theorems that make them correct.
--
-- The parts. A flat index (src/vector_store.cpp) holds vectors with an id and metadata and searches
-- them all; an HNSW index (src/hnsw.cpp) searches a layered graph; both score by the kernels of
-- kernels/, and take deletions as marks. A write-ahead log (src/wal.cpp) records insertions and
-- deletions and replays them after a crash. A metadata filter (src/filter.cpp) narrows a search of
-- the flat index. A paged store (src/paged_index.cpp) keeps vectors in a file behind a page cache.
-- The Python class Index (python/bindings.cpp) searches the HNSW index and filters what it finds.
--
-- Which file models what.
--   Float.antt: `float` as its IEEE 754 pattern, with comparison and negation.
--   Bytes.antt: the bytes that fwrite puts into a file and fread takes from it.
--   Kernels.antt and below: kernels/*.cpp, the reference loops, the AVX2 and the NEON kernels, and
--     the dispatch of src/distance.cpp.
--   Ranking.antt and below: std::sort and std::partial_sort by descending score, shared by the
--     indexes.
--   Wal.antt and below: src/wal.cpp. The class is the record `Wal`; append_insert, append_delete,
--     replay and checkpoint keep their names.
--   VectorStore.antt and below: src/vector_store.cpp. FlatIndex::search is `search`, its two loops
--     are `scores_from` and `collect`.
--   Hnsw/State.antt, Hnsw/Layer.antt, Hnsw/Insert.antt, Hnsw/Query.antt, Hnsw/Tombstones.antt and
--     below: src/hnsw.cpp. search_layer_ is `search_layer`, with its loop `beam_loop`; insert is
--     `insert`, with the steps `append_node`, `descend`, `connect_layers` and `raise_entry`.
--   Hnsw/Threads.antt and below: insert, delete_vector and search as threads over one index. A step
--     (`advance`) is one section under index_mutex_ or one access outside of it, `advance_layer` is
--     that of search_layer_, and `Reach` holds the states that any order of steps leads to.
--   Hnsw/Storage.antt and below: HNSWIndex::save and load, the file as its bytes, `saved_bytes`.
--   Hnsw/Compact.antt and below: HNSWIndex::compact, which inserts into a fresh index, saves it and
--     truncates the log.
--   Filter.antt and below: src/filter.cpp. json_compare, apply_op, parse_where and evaluate_filter
--     keep their names.
--   Paged.antt and below: src/paged_index.cpp, PagedVectorStore. push, get, load_page_ (`load_page`)
--     and evict_lru_ (`evict_lru`) are functions of the store, `PagedStore`. PagedIndex is
--     Paged/Index.antt and below, with the reads of the vector accessor as an argument.
--   Bindings.antt and below: python/bindings.cpp, the class Index, and the conversions py_to_json,
--     dict_to_json and json_meta_to_dict, which keep their names. Bindings/Session.antt is an object
--     through a series of calls, `after_call` what one of them leaves.
--   Cli.antt and below: src/cli.cpp. The argument loop is `parse_args`, with std::stoul and
--     std::stoi; load_npy keeps its name; the loops of the benchmark are `fill_flat` and
--     `measure_all`, and the number that compute_recall divides by k is `count_found`.
--   Storage.antt and below: src/storage.cpp, MMapReader and FileWriter.
--   Tests.antt and below: runs of the models.
--
-- Parameters. Rounding arithmetic (+, *, fma, sqrt, /) is the record `Arith`; a theorem that needs
-- its results to be numbers, or above minus infinity, says so. What `random_layer` draws is the
-- argument `level`. What the filter calls of the JSON library is the record `Json`, and what the
-- conversions call beside it is `JsonValues`. What an unset local of `load` holds is the argument
-- `unset`. Whether the system opens a file is a Boolean argument.
--
-- Choices. Equal scores keep their order in a sort, which the standard leaves open. A
-- std::priority_queue is the list in the order of its pops. An `int` that counts (k, M, ef, the
-- lengths) is a natural number below 2^31. The beam loop has fuel for one round more than there
-- are nodes, since a node is a candidate once at most, and the replay loop for one round more than
-- there are bytes, since a round takes a byte at least. The loops of the SIMD kernels have fuel
-- for `dim` rounds. A call of PagedIndex in which a read evicts a page has no result, since a pointer
-- in use may then point into memory that is gone; in any other call the pointers stay valid and a
-- read answers from the cache as it is when the call starts (Paged/Index/Reads.antt). A file is the list of its bytes. A write that is cut short
-- is modelled in Storage.antt, and by the log that ends after any number of bytes.
--
-- Not modelled: how locks are granted, the branches for Windows, the output of src/cli.cpp,
-- benchmarks/, and the registration with pybind11.
pub mod Prelude
pub mod Float
pub mod Bytes
pub mod Wal
pub mod Ranking
pub mod Kernels
pub mod VectorStore
pub mod Hnsw
pub mod Filter
pub mod Paged
pub mod Bindings
pub mod Cli
pub mod Storage
mod Tests
