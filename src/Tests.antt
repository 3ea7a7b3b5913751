-- ===== src/Tests.antt =====
-- The theorems at concrete inputs.
mod Frame
pub mod Codec
mod Responses
mod Status
mod Session
