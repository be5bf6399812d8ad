-- ===== src/Worker/Ingestion/Bulk/Rows.antt =====
-- What bulk_insert_chunk_metadata_query of server/src/operators/chunk_operator.rs sends to the
-- database, and that the rows it gets back are enough.
