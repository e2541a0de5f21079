-- ===== src/Client.antt =====
-- src/client.go: the client, which joins a local socket to the relay through the encoder and the
-- decoder. Here are its configuration and its constructor.
pub mod Connect
pub mod Routes
pub mod Agree
pub mod Pair
pub mod Handshake
pub mod Lane
pub mod Lanes
pub mod Local
pub mod Run
use fec.Prelude.{ℕ, Option, none, some, List}
use fec.Codec.ReedSolomon.{ReedSolomon}
use fec.Codec.Encoder.{NewError, New, made, failed, panics, Encoder, new_encoder}
use fec.Codec.Decoder.{Decoder, new_decoder}
use fec.Relay.{UdpAddr}

pub record PeerConfig : Type 0 where
  pub id : List ℕ
  pub mode : List ℕ
  pub port_caller : ℕ
  pub port_listener : ℕ

pub record ServerConfig : Type 0 where
  pub port : ℕ
  pub addr : List ℕ

pub record FecConfig : Type 0 where
  pub data_parts : ℕ
  pub total_parts : ℕ

pub record EncoderConfig : Type 0 where
  pub dispatcher_timeout : ℕ
  pub dispatcher_size : ℕ

pub record DecoderConfig : Type 0 where
  pub assembler_size : ℕ
  pub dispatcher_size : ℕ

pub record Config : Type 0 where
  pub peer : PeerConfig
  pub server : ServerConfig
  pub fec_config : FecConfig
  pub encoder : EncoderConfig
  pub decoder : DecoderConfig

-- `Client`, without its sockets, its reader and its writer.
pub record Client : Type 0 where
  pub port_caller : ℕ
  pub port_listener : ℕ
  pub server_port : ℕ
  pub server_addr : List ℕ
  pub accepted_local_addr : Option UdpAddr
  pub encoder : Encoder
  pub decoder : Decoder

-- `NewClient`. Either failure carries the words `codec.NewEncoder`, so that they are told apart by
-- nothing but the error below.
unfoldable pub new_client : (ℕ → ℕ → Option ReedSolomon) → Config → New Client
new_client new_rs cfg =
    elim (new_encoder new_rs cfg.encoder.dispatcher_size cfg.fec_config.data_parts
      cfg.fec_config.total_parts) [
        | failed e ↦ failed e
        | panics ↦ panics
        | made encoder ↦
            elim (new_decoder new_rs cfg.fec_config.data_parts cfg.fec_config.total_parts
              cfg.decoder.assembler_size cfg.decoder.dispatcher_size) [
                | failed e ↦ failed e
                | panics ↦ panics
                | made decoder ↦ made (record {
                  port_caller = cfg.peer.port_caller;
                  port_listener = cfg.peer.port_listener;
                  server_port = cfg.server.port;
                  server_addr = cfg.server.addr;
                  accepted_local_addr = none;
                  encoder = encoder;
                  decoder = decoder;
                })
              ]
      ]
