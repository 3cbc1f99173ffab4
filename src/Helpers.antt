-- ===== src/Helpers.antt =====
-- helpers.py: what is sent to a client who downloads a file, the path of a new file, and buckets that
-- are filled from a directory.
pub mod Checksums
pub mod Mimetypes
pub mod Paths
pub mod Sending
pub mod Populating
mod Tests
