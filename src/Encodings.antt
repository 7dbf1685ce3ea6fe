-- ===== src/Encodings.antt =====
-- The encodings and digests of src/studio_host.cpp.
pub mod Sha256
pub mod Chunks
pub mod Standard
pub mod Compression
pub mod Reference
pub mod Digest
pub mod Base64
pub mod Frames
