-- ===== src/Search.antt =====
-- The search of chunks: server/src/operators/search_operator.rs, and the conditions of
-- server/src/data/models.rs that it sends to the vector store. A float is a value of a type `F`.
pub mod Condition
pub mod Filter
pub mod Sort
pub mod Rerank
pub mod CrossEncoder
pub mod Retrieve
pub mod Ranking
pub mod Groups
