-- ===== src/Examples.antt =====
-- Tests, and the theorems applied to concrete data.
pub mod Codec
pub mod Packets
pub mod Bandwidth
pub mod Files
pub mod Wire
pub mod Tables
pub mod Hyper
pub mod Firewalls
pub mod Storage
pub mod Tokens
