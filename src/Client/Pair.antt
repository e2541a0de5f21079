-- ===== src/Client/Pair.antt =====
-- Two clients that `NewClient` of src/client.go makes with the same numbers of shards: the encoder
-- of one and the decoder of the other.
use mathlib.Core.Path.{subst}
use fec.Prelude.{
  ℕ, ◌+◌, ◌*◌, ◌^◌, ◌≤◌, ◌<◌, ◌≡◌, ◌≢◌, refl, sym, ap, ◌∙◌, Option, none, some, List, ◌++◌, length,
}
use fec.Codec.ReedSolomon.{ReedSolomon}
use fec.Codec.Encoder.{New, NewError, made, failed, panics, incoming_size, new_encoder, Encoder}
use fec.Codec.Encoder.Aggregate.{Event}
use fec.Codec.Encoder.Aggregate.Stream.{flat, brought}
use fec.Codec.Encoder.Run as EncoderRun
use fec.Codec.Decoder.{Decoder, new_decoder}
use fec.Codec.Decoder.Run as DecoderRun
use fec.Codec.Recovery.Restored.{IsCoder}
use fec.Codec.Recovery.Made.{made-injective}
use fec.Codec.Recovery.Bytes.{HasSizes}
use fec.Codec.Recovery.Bytes.Delivery.{run-run}
use fec.Client.{Config, Client, new_client}
use fec.Client.Agree.{coder_of}

-- What a constructor ends with is a thing, an error or a panic.
data Ended {A : Type 0} (n : New A) : Type 0 where
  is_made : (a : A) → n ≡ made a → Ended n
  is_failed : (e : NewError) → n ≡ failed e → Ended n
  is_panic : n ≡ panics → Ended n

ended : {A : Type 0} (n : New A) → Ended n
ended (made a) = is_made a refl
ended (failed e) = is_failed e refl
ended panics = is_panic refl

failed≢made : {A : Type 0} (e : NewError) (a : A) → failed e ≢ made a
failed≢made e a h = cc

panics≢made : {A : Type 0} (a : A) → panics ≢ made a
panics≢made a h = cc

-- A client is made of an encoder and a decoder that are made.
module _ (new_rs : ℕ → ℕ → Option ReedSolomon) (cfg : Config) where
  abbrev encoder_made : New Encoder
  encoder_made =
      new_encoder new_rs cfg.encoder.dispatcher_size cfg.fec_config.data_parts
        cfg.fec_config.total_parts

  abbrev decoder_made : New Decoder
  decoder_made =
      new_decoder new_rs cfg.fec_config.data_parts cfg.fec_config.total_parts
        cfg.decoder.assembler_size cfg.decoder.dispatcher_size

  new_client-made :
      (c : Client)
      → new_client new_rs cfg ≡ made c
      → (encoder_made ≡ made c.encoder) × (decoder_made ≡ made c.decoder)
  unfolding new_client
  new_client-made c h = elim (ended encoder_made) [
    | is_failed e f ↦ absurd (failed≢made e c (sym (rw (f, new_client) refl) ∙ h))
    | is_panic f ↦ absurd (panics≢made c (sym (rw (f, new_client) refl) ∙ h))
    | is_made encoder f ↦ elim (ended decoder_made) [
      | is_failed e g ↦ absurd (failed≢made e c (sym (rw (f, new_client, g) refl) ∙ h))
      | is_panic g ↦ absurd (panics≢made c (sym (rw (f, new_client, g) refl) ∙ h))
      | is_made decoder g ↦
          let client : Client = record {
            port_caller = cfg.peer.port_caller;
            port_listener = cfg.peer.port_listener;
            server_port = cfg.server.port;
            server_addr = cfg.server.addr;
            accepted_local_addr = none;
            encoder = encoder;
            decoder = decoder;
          } in
          let built : new_client new_rs cfg ≡ made client = rw (f, new_client, g) refl in
          let same = made-injective client c (sym built ∙ h) in
          (
            f ∙ ap (λ (x : Client). made x.encoder) same,
            g ∙ ap (λ (x : Client). made x.decoder) same,
          )
    ]
  ]

-- With a hash of 20 bytes: two clients are made, whose configurations have the same numbers of
-- shards, two or more of data and at most `2 ^ 32` in all, for which there is a Reed-Solomon code
-- that behaves as documented. The first interleaves at least one chunk, the second has as many
-- lines as it interleaves chunks or more, and the sizes and the numbers of the packets do not
-- overflow. Then, whatever data and timers come to the encoder of the first, its goroutines do not
-- panic; those of the decoder of the second, which gets all datagrams in their order, do not
-- panic either; and what comes out, put together, is the data that went in, up to less than one
-- batch of chunks of bytes at its end.
pub new_client-run :
    (sha1 : List ℕ → List ℕ) (new_rs : ℕ → ℕ → Option ReedSolomon) (rs : ReedSolomon)
    (cfg cfg' : Config) (c c' : Client) (events : List Event)
    → ((x : List ℕ) → length (sha1 x) ≡ 20)
    → new_client new_rs cfg ≡ made c
    → new_client new_rs cfg' ≡ made c'
    → cfg'.fec_config ≡ cfg.fec_config
    → new_rs cfg.fec_config.data_parts cfg.fec_config.total_parts ≡ some rs
    → IsCoder (coder_of rs cfg)
    → 2 ≤ cfg.fec_config.data_parts
    → cfg.fec_config.total_parts ≤ 2 ^ 32
    → 0 < cfg.encoder.dispatcher_size
    → cfg.encoder.dispatcher_size ≤ cfg'.decoder.assembler_size
    → HasSizes (coder_of rs cfg) cfg.encoder.dispatcher_size
    → cfg'.decoder.assembler_size * cfg.fec_config.total_parts < 2 ^ 64
    → (1 + (length (brought events) + length events)) * cfg.fec_config.total_parts < 2 ^ 64
    → (sent : List (List ℕ)) × (enc : Encoder) × (out : List (List ℕ)) × (dec : Decoder)
      × (rest : List ℕ) × (EncoderRun.run sha1 c.encoder events ≡ some (sent, enc))
      × (DecoderRun.run sha1 c'.decoder sent ≡ some (out, dec))
      × (flat out ++ rest ≡ brought events)
      × (length rest < cfg.encoder.dispatcher_size * incoming_size cfg.fec_config.data_parts)
new_client-run sha1 new_rs rs cfg cfg' c c' events sha1_len new new' same code v two few pos room
      sizes table small =
    let (encoder, _) = new_client-made new_rs cfg c new in
    let (_, decoder) = new_client-made new_rs cfg' c' new' in
    run-run sha1 sha1_len (coder_of rs cfg) v cfg.encoder.dispatcher_size pos sizes new_rs
      cfg'.decoder.assembler_size cfg'.decoder.dispatcher_size c.encoder c'.decoder events code two
      few room table encoder
      (subst
        (λ f.
          new_decoder new_rs f.data_parts f.total_parts cfg'.decoder.assembler_size
            cfg'.decoder.dispatcher_size
          ≡ made c'.decoder)
        same decoder)
      small
