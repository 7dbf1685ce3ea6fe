-- ===== src/Tests.antt =====
-- Runs of the definitions, and the theorems at concrete inputs.
pub mod Launch
pub mod Sentinel
pub mod Boot
pub mod Output
pub mod Binaries
pub mod Recording
pub mod Renderer
pub mod Server
pub mod Encodings
pub mod Identity
