-- ===== src/Files.antt =====
-- Serving a stored file, packages/rest/src/file-response.ts.
pub mod Decimals
pub mod Ranges
pub mod Reading
pub mod RoundTrip
