-- ===== src/Streams.antt =====
-- packages/rest/src/resumable-streams.ts: streams whose producer outlives any one connection.
pub mod Stream
pub mod Registry
