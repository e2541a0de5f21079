-- ===== src/Tests/Client.antt =====
-- A client of the code with three shards, its handshake, and its goroutines.
use fec.Prelude.{
  ℕ, ◌*◌, ◌<◌, length, ◌≡◌, ◌↔◌, refl, true, false, none, some, List, [], ◌∷◌, ◌++◌, arith, All,
}
use fec.Io.{got, read_error, wrote, write_error}
use fec.Codec.Encoder.{few_parts, made, makes, incoming_size, Encoder, new_encoder}
use fec.Codec.Encoder.Aggregate.{incoming, timer}
use fec.Codec.Encoder.Aggregate
use fec.Codec.Encoder.Aggregate.Stream.{flat, brought}
use fec.Codec.Encoder.Run as EncoderRun
use fec.Codec.Decoder.{Decoder}
use fec.Codec.Decoder.Run as DecoderRun
use fec.Relay.{uid, UdpAddr, Server, datagram, new_server, serve}
use fec.Client.{Config, Client, new_client}
use fec.Client.Pair.{new_client-run}
use fec.Client.Agree.{IsCause, new_client_lem, new_client-IsCause}
use fec.Client.Connect.{connected, connect, handshake}
use fec.Client.Handshake.{joined, connect-serve}
use fec.Client.Run.{started, IsStarted, run, run_iff}
use fec.Client.Routes.{
  Event, from_server, from_decoder, from_local, from_encoder, new_routes, route_all,
}
use fec.Client.Lane.{
  decoder_in, encoder_in, server_in, local_out, server_reads, local_reads, encoder_gives,
  decoder_gives,
}
use fec.Client.Lanes.{route_all-lanes}
use fec.Client.Local.{GoesTo, route_all-GoesTo}
use fec.Tests.Code.{sum_code, no_sha1, no_sha1_len}
use fec.Tests.Recovery.{coder-IsCoder}
use fec.Tests.Safety.{new_sum_code}
use fec.Tests.Relay.{same_bytes, alice, alice-IsId}

abbrev config : ℕ → Config
config total = record {
  peer = record { id = alice; mode = []; port_caller = 1; port_listener = 2 };
  server = record { port = 25565; addr = 49 ∷ [] };
  fec_config = record { data_parts = 2; total_parts = total };
  encoder = record { dispatcher_timeout = 100; dispatcher_size = 2 };
  decoder = record { assembler_size = 4; dispatcher_size = 8 };
}

config-made : (c : Client) × (new_client new_sum_code (config 3) ≡ made c)
unfolding makes incoming_size
config-made =
    new_client_lem new_sum_code (config 3) sum_code (omega arith) (omega arith) refl record {
      encoder = record { buffer = refl; packets = refl };
      decoder = record { places = refl; all_lines = refl; packets = refl };
    }

abbrev client : Client
client = config-made.0

abbrev messages : List Aggregate.Event
messages = incoming (4 ∷ 5 ∷ 6 ∷ []) ∷ timer ∷ incoming (7 ∷ []) ∷ timer ∷ []

new_client-run_example :
    (sent : List (List ℕ)) × (enc : Encoder) × (out : List (List ℕ)) × (dec : Decoder)
    × (rest : List ℕ) × (EncoderRun.run no_sha1 client.encoder messages ≡ some (sent, enc))
    × (DecoderRun.run no_sha1 client.decoder sent ≡ some (out, dec))
    × (flat out ++ rest ≡ brought messages)
    × (length rest < 2 * incoming_size 2)
new_client-run_example =
    new_client-run no_sha1 new_sum_code sum_code (config 3) (config 3) client client messages
      no_sha1_len config-made.1 config-made.1 refl refl coder-IsCoder (omega arith) (omega arith)
      (omega arith) (omega arith) (omega arith) (omega arith) (omega arith)

new_client-IsCause_example : IsCause new_sum_code (config 1) few_parts
unfolding new_client new_encoder
new_client-IsCause_example = new_client-IsCause new_sum_code (config 1) few_parts refl

run_iff_example :
    (run (joined (uid ++ alice)) alice (some true) (some false) (false ∷ true ∷ [])
      ≡ started true false 1)
    ↔ IsStarted
        (joined (uid ++ alice))
        alice
        (some true)
        (some false)
        (false ∷ true ∷ [])
        true
        false
        1
run_iff_example =
    run_iff (joined (uid ++ alice)) alice (some true) (some false) (false ∷ true ∷ []) true false 1
      alice-IsId.sized

abbrev home : UdpAddr
home = record { ip = 127 ∷ 0 ∷ 0 ∷ 1 ∷ []; port = 5000 }

connect-serve_example :
    (reply : List ℕ) × (t : Server) × (serve same_bytes new_server
        (datagram (handshake alice) home none)
      ≡ ((reply, home) ∷ [], t))
    × (connect (joined reply) alice ≡ connected)
connect-serve_example =
    connect-serve same_bytes new_server alice home none (λ x len. refl) alice-IsId

abbrev happening : List Event
happening =
    from_local (some (1 ∷ [], home))
    ∷ from_server (got (2 ∷ []))
    ∷ from_encoder (3 ∷ []) (write_error 0)
    ∷ from_server (read_error 0)
    ∷ from_decoder (4 ∷ []) (wrote 1) (wrote 1)
    ∷ from_encoder (5 ∷ []) (wrote 1)
    ∷ from_decoder (7 ∷ []) (wrote 1) (write_error 0)
    ∷ from_decoder (8 ∷ []) (wrote 1) (wrote 1)
    ∷ from_server (got (6 ∷ []))
    ∷ from_local none
    ∷ []

route_all-lanes_example :
    (decoder_in (route_all new_routes happening).0 ≡ server_reads true happening)
    × (encoder_in (route_all new_routes happening).0 ≡ local_reads true happening)
    × (server_in (route_all new_routes happening).0 ≡ encoder_gives true happening)
    × (local_out (route_all new_routes happening).0 ≡ decoder_gives true none true happening)
route_all-lanes_example = route_all-lanes happening

abbrev IsHome : UdpAddr → Type 0
IsHome addr = addr.port ≡ 5000

route_all-GoesTo_example : All (GoesTo IsHome) (route_all new_routes happening).0
route_all-GoesTo_example =
    route_all-GoesTo IsHome happening
      (refl, (tt, (tt, (tt, (tt, (tt, (tt, (tt, (tt, (tt, tt))))))))))
