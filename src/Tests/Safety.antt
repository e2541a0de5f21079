-- ===== src/Tests/Safety.antt =====
-- Packets that come twice, late or not at all, and datagrams that are none.
use mathlib.Core.Option
use fec.Prelude.{
  take, drop, copy, slice, ℕ, ◌≡◌, inl, inr, refl, Option, none, some, List, [], ◌∷◌, arith,
  replicate, All,
}
use fec.Codec.Packet.{PacketV2}
use fec.Codec.ReedSolomon.{ReedSolomon}
use fec.Codec.Encoder.{made, makes}
use fec.Codec.Chunk.{Chunk}
use fec.Codec.Decoder.{Assembler, Decoder, Dispatcher, new_decoder}
use fec.Codec.Decoder.Decode.{decode}
use fec.Codec.Decoder.Assembly.{
  assemble_all, assemble, store, new_line, push_packet, drop_line, at_packet, at_chunk, chunk_start,
  chunk_end, clear_line, clear_from,
}
use fec.Codec.Decoder.Assembly.Geometry.{Shape}
use fec.Codec.Decoder.Assembly.Bounds.{HasLength, assemble_all-Shape}
use fec.Codec.Decoder.Assembly.Separate.{Separate, OfOneChunk}
use fec.Codec.Decoder.Assembly.Sequence.{assemble_all-OfOneChunk}
use fec.Codec.Decoder.Assembly.Fresh.{fresh_assembler, fresh_assembler-Separate}
use fec.Codec.Decoder.Dispatch.{chunk_in, reset, dispatch_all}
use fec.Codec.Decoder.Dispatch.Genuine.{IsFrom, dispatch_all-IsFrom}
use fec.Codec.Decoder.Run.{run}
use fec.Codec.Recovery.Packets.{packet_of, packets_of}
use fec.Codec.Recovery.Safety.{IsDatagram, IsData, run-IsData}
use fec.Codec.Recovery.Made.{decoder_of, fresh_dispatcher_of}
use fec.Codec.Packet
use fec.Tests.Code.{no_sha1, no_sha1_len, sum_code, sum_reconstruct-too_few, plus}
use fec.Tests.Recovery.{coder, coder-IsCoder, three_bytes, first_part, shards, encoded}

abbrev pub data_of : ℕ → List ℕ
data_of n = three_bytes

abbrev sum_packet : PacketV2
sum_packet = packet_of 5 2 (plus first_part (replicate 1024 0))

abbrev first_packet : PacketV2
first_packet = packet_of 5 0 first_part

-- A packet of chunk 5 with a number that is too large.
abbrev strange_packet : PacketV2
strange_packet = packet_of 5 3 first_part

assemble_all-Shape_example :
    (sent : List (List (Option PacketV2))) × (b : Assembler) × (assemble_all
        (fresh_assembler 2 3 4)
        (strange_packet ∷ first_packet ∷ strange_packet ∷ [])
      ≡ some (sent, b))
    × Shape b
    × (b.total ≡ 3)
    × All (HasLength 3) sent
assemble_all-Shape_example =
    assemble_all-Shape (fresh_assembler 2 3 4) (strange_packet ∷ first_packet ∷ strange_packet ∷ [])
      (fresh_assembler-Separate (λ q. Unit) 2 3 4 (omega arith) (omega arith) (omega arith)
        (omega arith)).shape
      (omega arith, (omega arith, (omega arith, tt)))

abbrev IsFive : PacketV2 → Type 0
IsFive q = q.csn ≡ 5

assemble_all-OfOneChunk_example :
    (sent : List (List (Option PacketV2))) × (b : Assembler) × (assemble_all
        (fresh_assembler 2 3 4)
        (sum_packet ∷ sum_packet ∷ first_packet ∷ [])
      ≡ some (sent, b))
    × Separate IsFive b
    × All (OfOneChunk IsFive 3) sent
assemble_all-OfOneChunk_example =
    assemble_all-OfOneChunk IsFive (fresh_assembler 2 3 4)
      (sum_packet ∷ sum_packet ∷ first_packet ∷ [])
      (fresh_assembler-Separate IsFive 2 3 4 (omega arith) (omega arith) (omega arith)
        (omega arith))
      (
        (record { psn_in = omega arith; no_wrap = omega arith }, refl),
        (
          (record { psn_in = omega arith; no_wrap = omega arith }, refl),
          ((record { psn_in = omega arith; no_wrap = omega arith }, refl), tt),
        ),
      )

abbrev seven : Chunk
seven = record { parts = 1; version = 1; kind = 1; csn = 7; size = 1; payload = 9 ∷ [] }

abbrev IsSeven : Chunk → Type 0
IsSeven chunk = chunk.csn ≡ 7

-- A chunk that comes twice, and a reset between.
dispatch_all-IsFrom_example :
    (sent : List (List ℕ)) × (b : Dispatcher) × (dispatch_all
        (fresh_dispatcher_of 3)
        (chunk_in (some seven) ∷ chunk_in none ∷ reset ∷ chunk_in (some seven) ∷ [])
      ≡ some (sent, b))
    × All (IsFrom IsSeven) sent
dispatch_all-IsFrom_example =
    dispatch_all-IsFrom IsSeven (fresh_dispatcher_of 3)
      (chunk_in (some seven) ∷ chunk_in none ∷ reset ∷ chunk_in (some seven) ∷ []) (omega arith)
      refl (refl, (tt, (tt, (refl, tt))))

abbrev pub new_sum_code : ℕ → ℕ → Option ReedSolomon
new_sum_code parts total = some sum_code

sum-IsDatagram : IsDatagram no_sha1 no_sha1_len coder data_of (Packet.marshal no_sha1 sum_packet)
sum-IsDatagram = record {
  packet = sum_packet;
  next = 6;
  packets = packets_of 5 0 shards;
  encoded = encoded;
  among = refl;
  no_wrap = omega arith;
  wire = refl;
}

garbage-decode : decode no_sha1 (1 ∷ 2 ∷ 3 ∷ []) ≡ []
unfolding decode
garbage-decode = refl

pub new_sum_code-decoder : new_decoder new_sum_code 2 3 4 2 ≡ made (decoder_of coder 4 2)
unfolding new_decoder makes
new_sum_code-decoder = refl

-- One datagram twice, and three bytes of something else.
run-IsData_example :
    (sent : List (List ℕ)) × (b : Decoder) × (run no_sha1 (decoder_of coder 4 2) (
        Packet.marshal no_sha1 sum_packet
        ∷ (1 ∷ 2 ∷ 3 ∷ [])
        ∷ Packet.marshal no_sha1 sum_packet
        ∷ [])
      ≡ some (sent, b))
    × All (IsData data_of) sent
run-IsData_example =
    run-IsData no_sha1 no_sha1_len coder data_of coder-IsCoder (λ n. omega arith) new_sum_code 4 2
      (decoder_of coder 4 2) _ sum_reconstruct-too_few refl (omega arith) (omega arith)
      (omega arith) (omega arith) new_sum_code-decoder
      (inl sum-IsDatagram, (inr garbage-decode, (inl sum-IsDatagram, tt)))

-- A chunk number whose places wrap round: the line would end before it starts.
abbrev wrapped_packet : PacketV2
wrapped_packet = packet_of 6148914691236517205 0 three_bytes

wrapped-assemble_all :
    assemble_all (fresh_assembler 2 3 4) (wrapped_packet ∷ wrapped_packet ∷ []) ≡ none
unfolding assemble_all assemble store new_line push_packet at_packet at_chunk chunk_start chunk_end
    replicate
wrapped-assemble_all = refl

-- A decoder that was made with no lines.
no_lines-assemble_all : assemble_all (fresh_assembler 2 3 0) (first_packet ∷ []) ≡ none
unfolding assemble_all assemble store at_packet at_chunk replicate
no_lines-assemble_all = refl

-- Chunk 7 drops chunk 3 after chunk 5 was sent: then chunk 5 is sent once more.
abbrev resent : List PacketV2
resent =
    packet_of 3 0 three_bytes
    ∷ packet_of 5 0 three_bytes
    ∷ packet_of 5 1 three_bytes
    ∷ packet_of 7 0 three_bytes
    ∷ packet_of 5 0 three_bytes
    ∷ packet_of 5 1 three_bytes
    ∷ []

abbrev chunk_five : List (Option PacketV2)
chunk_five = some (packet_of 5 0 three_bytes) ∷ some (packet_of 5 1 three_bytes) ∷ none ∷ []

resent-assemble_all :
    Option.map (λ r. r.0) (assemble_all (fresh_assembler 2 3 4) resent)
    ≡ some (chunk_five ∷ chunk_five ∷ [])
unfolding assemble_all assemble store new_line push_packet at_packet at_chunk chunk_start chunk_end
    clear_line clear_from drop_line replicate copy slice take drop
resent-assemble_all = refl

-- Packet number 3 of chunk 5, where a chunk has packets 0 to 2, gets in front of those of chunk 6.
mixed-assemble_all :
    Option.map
      (λ r. r.0)
      (assemble_all
        (fresh_assembler 2 3 4)
        (strange_packet ∷ packet_of 6 1 three_bytes ∷ packet_of 6 2 three_bytes ∷ []))
    ≡ some (
        (some strange_packet
          ∷ some (packet_of 6 1 three_bytes)
          ∷ some (packet_of 6 2 three_bytes)
          ∷ [])
        ∷ [])
unfolding assemble_all assemble store new_line push_packet at_packet at_chunk chunk_start chunk_end
    clear_line clear_from drop_line replicate copy slice take drop
mixed-assemble_all = refl
