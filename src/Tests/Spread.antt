-- ===== src/Tests/Spread.antt =====
-- Batches of two chunks, interleaved.
use fec.Prelude.{ℕ, ◌<◌, ◌*◌, ◌≡◌, refl, some, List, [], ◌∷◌, ◌++◌, arith, length, map}
use fec.Codec.Packet
use fec.Codec.Encoder.{Encoder, made, makes, incoming_size, new_encoder}
use fec.Codec.Encoder.Aggregate.{Event, incoming, timer}
use fec.Codec.Encoder.Aggregate.Stream.{flat, brought}
use fec.Codec.Encoder.Run as EncoderRun
use fec.Codec.Decoder.{Decoder}
use fec.Codec.Decoder.Run as DecoderRun
use fec.Codec.Recovery.Made.{encoder_of, decoder_of}
use fec.Codec.Recovery.Stream.{data_from}
use fec.Codec.Recovery.Bytes.Delivery.{run-run}
use fec.Codec.Recovery.Spread.Lines.{Heard}
use fec.Codec.Recovery.Spread.Delivery.{AreSent, sent, run-sent}
use fec.Tests.Code.{no_sha1, no_sha1_len}
use fec.Tests.Recovery.{coder, coder-IsCoder}
use fec.Tests.Safety.{data_of, new_sum_code, new_sum_code-decoder}
use fec.Tests.Stream.{sum, one-IsMade}

-- Round 2 comes before round 0, round 1 is lost, and a packet of the first chunk comes twice.
abbrev two_rounds : List Heard
two_rounds = record { numbers = 2 ∷ 0 ∷ []; late = sum 1 ∷ [] } ∷ []

two_rounds-AreSent : AreSent no_sha1 no_sha1_len coder data_of 2 1 two_rounds
two_rounds-AreSent = (
  record {
    heard = record {
      different = (omega arith, (omega arith, tt), (omega arith, tt, tt));
      enough = refl;
      behind = (omega arith, tt);
    };
    made = (one-IsMade (sum 1) refl, tt);
  },
  tt,
)

run-sent_example :
    (b : Decoder) × (DecoderRun.run no_sha1 (decoder_of coder 4 2) (
        map (Packet.marshal no_sha1) (
          sent no_sha1 no_sha1_len coder data_of 2 coder-IsCoder
            (λ n. omega arith)
            (omega arith)
            1
            two_rounds))
      ≡ some (data_from data_of 1 2, b))
run-sent_example =
    run-sent no_sha1 no_sha1_len coder data_of 2 coder-IsCoder (λ n. omega arith) (omega arith)
      new_sum_code 4 2 (decoder_of coder 4 2) two_rounds refl (omega arith) (omega arith)
      (omega arith) (omega arith) new_sum_code-decoder two_rounds-AreSent (omega arith)

new_sum_code-encoder : new_encoder new_sum_code 2 2 3 ≡ made (encoder_of coder 2)
unfolding new_encoder makes incoming_size
new_sum_code-encoder = refl

abbrev messages : List Event
messages =
    incoming (4 ∷ 5 ∷ 6 ∷ []) ∷ timer ∷ incoming (7 ∷ []) ∷ timer ∷ incoming (8 ∷ 9 ∷ []) ∷ []

run-run_example :
    (datagrams : List (List ℕ)) × (enc : Encoder) × (out : List (List ℕ)) × (dec : Decoder)
    × (rest : List ℕ) × (EncoderRun.run no_sha1 (encoder_of coder 2) messages
        ≡ some (datagrams, enc))
    × (DecoderRun.run no_sha1 (decoder_of coder 4 2) datagrams ≡ some (out, dec))
    × (flat out ++ rest ≡ brought messages)
    × (length rest < 2 * incoming_size 2)
run-run_example =
    run-run no_sha1 no_sha1_len coder coder-IsCoder 2 (omega arith) (omega arith) new_sum_code 4 2
      (encoder_of coder 2) (decoder_of coder 4 2) messages refl (omega arith) (omega arith)
      (omega arith) (omega arith) new_sum_code-encoder new_sum_code-decoder (omega arith)
