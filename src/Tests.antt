-- ===== src/Tests.antt =====
-- Runs at concrete inputs, and each theorem with hypotheses at an input that meets them.
pub mod Data
mod Codec
mod Sums
mod Stores
mod Messages
pub mod Trees
mod Growth
