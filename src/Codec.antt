-- ===== src/Codec.antt =====
-- src/codec: packets, chunks, the encoder and the decoder.
pub mod Packet
pub mod PacketV3
pub mod ReedSolomon
pub mod Chunk
pub mod Encoder
pub mod Decoder
pub mod Recovery
