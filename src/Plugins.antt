-- ===== src/Plugins.antt =====
-- The user plugins of src/studio_host.cpp: the load plan, the load loop with its crash containment,
-- and launches in a row.
pub mod Portable
pub mod Record
pub mod Plan
pub mod Load
pub mod Boot
pub mod Image
pub mod Probe
