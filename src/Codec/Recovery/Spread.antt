-- ===== src/Codec/Recovery/Spread.antt =====
-- Batches of chunks that the encoder's dispatcher interleaves, in the assembler and the restorer of
-- src/codec/decoder.go.
pub mod Rounds
pub mod Lines
pub mod Delivery
pub mod Batches
pub mod Sent
pub mod Dispatched
pub mod Lossless
