-- ===== src/Rpc.antt =====
-- What the control server reads out of a request (src/studio_host.cpp).
pub mod Fields
pub mod Reply
pub mod Tokens
pub mod Identity
