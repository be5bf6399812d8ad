-- ===== src/Lib.antt =====
-- Verification of the server of Trieve, a search and retrieval service: its queue workers, the
-- authentication of its requests, the chunking of documents, the filters and the ranking of its
-- searches, and the settings of its data sets.
--
-- How the parts work together: the HTTP handlers (server/src/handlers) answer requests that the
-- middleware (server/src/middleware/auth_middleware.rs) has let pass, and put long work as messages
-- into Redis lists. Four workers (server/src/bin) take messages from these lists, do the work, and
-- queue a message again when the work fails, or bury it after too many attempts. A search turns the
-- filter of a request into one of the vector store, gets the chunks of the points that this answers
-- with from the database, and ranks them.
--
-- Which file models which part:
--   Prelude: names of the library, Boolean tests and lists measured by native numbers, integers.
--   Errors: server/src/errors.rs, ServiceError with its texts and responses.
--   Models: the shared types of server/src/data/models.rs and server/src/handlers/chunk_handler.rs.
--   Redis: the list commands that the workers use, with failed commands that may have been applied.
--   Worker: what the workers share: World is their state, fetch the head of the loop, connect_loop
--     the loop before it. Worker/Delete, Worker/File, Worker/Grupdate and Worker/Ingestion are
--     delete-worker.rs, file-worker.rs, grupdate-worker.rs and ingestion-worker.rs of
--     server/src/bin; in each, step is one pass of the loop, handle and process its parts, and
--     readd_error_to_queue (readd_group_error_to_queue) the retry. An Env says how the world outside
--     answers during a pass: the database, S3, Tika, and the Redis calls.
--     Worker/Ingestion/Update and Worker/Ingestion/Upload are update_chunk and upload_chunk, with what
--     they have written as their state. Worker/Ingestion/Bulk is bulk_upload_chunks, with the points
--     of its chunks (Bulk/Points) and bulk_insert_chunk_metadata_query of
--     server/src/operators/chunk_operator.rs (Bulk/Insert).
--   Auth: server/src/data/models.rs (roles), server/src/operators/user_operator.rs (Auth/ApiKey),
--     server/src/middleware/auth_middleware.rs (Auth/Headers, Auth/Middleware: call is the
--     middleware up to the handler) and server/src/handlers/auth_handler.rs (Auth/Gate: the users
--     that a handler asks for; Auth/Admin and Auth/Call: what the middleware has found for them).
--   Enqueue: create_chunk_metadata of server/src/operators/chunk_operator.rs, and create_chunk of
--     server/src/handlers/chunk_handler.rs (Enqueue/Handler), which fills the ingestion queue.
--   Parse: server/src/operators/parse_operator.rs, coarse_doc_chunker and its parts.
--   Chunks: the full, slim and content forms of a chunk of server/src/data/models.rs, with the
--     conversions between them; Chunks/Tags splits and joins texts.
--   Dataset: DatasetConfiguration of server/src/data/models.rs with its DTO (from_dto, to_dto, default,
--     from_curr_dataset); Dataset/Json is from_json and to_json.
--   Version: server/src/middleware/api_version.rs.
--   Query: parse_query of server/src/handlers/chunk_handler.rs.
--   Search: the parts of server/src/operators/search_operator.rs. Search/Condition and Search/Filter
--     make the filter of the vector store (convert_to_qdrant_condition of server/src/data/models.rs,
--     assemble_qdrant_filter, the filter of into_qdrant_query); Search/Retrieve is
--     retrieve_chunks_from_point_ids; Search/CrossEncoder is cross_encoder of
--     server/src/operators/model_operator.rs; Search/Rerank is rerank_chunks, with the stable sort of
--     Search/Sort; Search/Ranking has search_chunks_query, search_hybrid_chunks and
--     search_hybrid_groups from the results of the vector store on, and Search/Groups has
--     retrieve_chunks_for_groups, cross_encoder_for_groups and hybrid_search_over_groups.
--
-- Numbers: a UUID is the number that it is. The attempt counters keep their wrap-around, 2 ^ 64 for
-- usize and 2 ^ 8 for u8. The cutting of large chunks rounds its count of characters to an f32, which is
-- exact below 2 ^ 24; the numbers of splits and groups, which the chunker divides as f32 too, are taken
-- as exact. Other floats are a type with operations, a parameter, since their
-- rounding is not at hand; a property names what it needs of them. The size of a file in megabytes
-- is exact below 2 ^ 53 bytes.
-- Loops: connect_loop recurses on the list of attempts. The loops of the chunker run on fuel: as
-- many rounds as there are characters, splits or splits left over, each round taking at least one;
-- that this is enough is part of the theorems, which state the result. The batches of the cross encoder
-- run on as much fuel as there are results, each batch taking at least one; that none is left over is
-- flatten-batches of Search/CrossEncoder/Best.
-- Panics: code that can unwrap or expect in vain answers with an Outcome, which is `panicked` or
-- returned, or with an Option. A pass of a worker is described for the calls that return: where
-- bulk_upload_chunks or the reading of a configuration panics, the worker's process ends with its
-- message in processing, and there is no further pass. A sort is the stable sort that its documentation promises for orders
-- that are total.
--
-- Not modelled: SQL queries, among them those that find chunks by metadata, the vector store, S3,
-- Tika, the model servers, serde and the HTML and regular expression libraries, which are parameters
-- with what the code relies on as hypotheses; the highlighters of chunk_operator.rs, which are
-- parameters of the retrieval, as are the results of update_chunk for the ingestion loop; the query
-- vectors (get_qdrant_vector) and the queries made of them; the remaining handlers and operators,
-- analytics, and the front ends.
pub mod Auth
pub mod Chunks
pub mod Dataset
pub mod Enqueue
pub mod Errors
pub mod Models
pub mod Parse
pub mod Prelude
pub mod Query
pub mod Redis
pub mod Search
pub mod Version
pub mod Worker
