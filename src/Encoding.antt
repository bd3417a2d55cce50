-- ===== src/Encoding.antt =====
-- peeroxide-dht/src/compact_encoding.rs: the compact encoding of the wire messages.
pub mod State
pub mod Laws
pub mod Words
pub mod Uint
pub mod Signed
pub mod Bytes
pub mod Ip
pub mod Arrays
pub mod RoundTrips
pub mod Bounds
pub mod Fields
