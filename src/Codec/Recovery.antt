-- ===== src/Codec/Recovery.antt =====
-- The encoder of src/codec/encoder.go against the decoder of src/codec/decoder.go: what is encoded
-- is restored from any large enough part of the packets.
pub mod Packets
pub mod Restored
pub mod Delivered
pub mod Wire
pub mod Faithful
pub mod Made
pub mod Safety
pub mod Stream
pub mod Spread
pub mod Bytes
