-- ===== src/Tests/System.antt =====
-- Two chunks that go through the relay, while the other peer and a stranger send something.
use fec.Prelude.{
  ◌≡◌, refl, ap, ◌∙◌, some, none, List, [], ◌∷◌, ◌++◌, arith, get_or, map, bytes_eq, true,
}
use fec.Io.{got, wrote}
use fec.Relay.{uid, new_server, same_addr, check_handshake, datagram, serve_all}
use fec.Relay.Talk.{Turn, from_first, from_second, from_elsewhere, turns}
use fec.Codec.Packet.{PacketV2, marshal}
use fec.Codec.Decoder.{Decoder}
use fec.Codec.Decoder.Run.{run}
use fec.Codec.Recovery.Made.{decoder_of}
use fec.Codec.Recovery.Stream.{in_turn, data_from}
use fec.Client.Routes.{Event, from_server, from_local, from_encoder, route_all, new_routes}
use fec.Client.Lane.{decoder_in, server_reads}
use fec.System.{received, firsts, received-session, run-relayed}
use fec.Tests.Code.{no_sha1, no_sha1_len}
use fec.Tests.Recovery.{coder, coder-IsCoder}
use fec.Tests.Safety.{data_of, new_sum_code, new_sum_code-decoder}
use fec.Tests.Stream.{sum, whole, rest, two_batches, two_batches-AreSentBatches}
use fec.Tests.Relay.{same_bytes, alice, bob, alice-IsId, bob-IsId, host}

-- A datagram of the first peer.
abbrev sends : PacketV2 → Turn
sends q = from_first (marshal no_sha1 q) (some 1056)

abbrev exchange : List Turn
exchange =
    sends (sum 1)
    ∷ from_second (7 ∷ []) none
    ∷ sends (whole 1)
    ∷ sends (sum 1)
    ∷ from_elsewhere (9 ∷ []) (host 3) none
    ∷ sends (rest 2)
    ∷ sends (sum 2)
    ∷ sends (rest 1)
    ∷ sends (whole 2)
    ∷ []

abbrev hears : PacketV2 → Event
hears q = from_server (got (marshal no_sha1 q))

abbrev heard : List Event
heard =
    hears (sum 1)
    ∷ from_local (some (7 ∷ [], host 9))
    ∷ hears (whole 1)
    ∷ hears (sum 1)
    ∷ hears (rest 2)
    ∷ from_encoder (7 ∷ []) (wrote 1)
    ∷ hears (sum 2)
    ∷ hears (rest 1)
    ∷ hears (whole 2)
    ∷ from_local none
    ∷ []

exchange-firsts : firsts exchange ≡ map (marshal no_sha1) (in_turn two_batches)
unfolding firsts in_turn
exchange-firsts = refl

exchange-heard : firsts exchange ≡ server_reads true heard
unfolding firsts server_reads
exchange-heard = refl

exchange-received :
    received
      (host 2)
      (serve_all same_bytes new_server (
        datagram (uid ++ alice) (host 1) (some 32)
        ∷ datagram (uid ++ bob) (host 2) none
        ∷ turns (host 1) (host 2) exchange)).0
    ≡ (uid ++ bob) ∷ server_reads true heard
unfolding same_addr bytes_eq check_handshake
exchange-received =
    received-session same_bytes no_sha1 no_sha1_len coder data_of coder-IsCoder (λ n. omega arith)
      alice bob (host 1) (host 2) (some 32) none exchange two_batches (λ x e. refl) alice-IsId
      bob-IsId (λ e. omega (arith, ap (λ x. get_or x 0 0) e)) refl exchange-firsts
      (refl, (refl, refl, refl, tt)) two_batches-AreSentBatches
    ∙ ap (λ xs. (uid ++ bob) ∷ xs) exchange-heard

run-relayed_example :
    (b : Decoder) × (run no_sha1 (decoder_of coder 4 2) (decoder_in (route_all new_routes heard).0)
      ≡ some (data_from data_of 1 2, b))
unfolding same_addr bytes_eq check_handshake
run-relayed_example =
    run-relayed same_bytes no_sha1 no_sha1_len coder data_of coder-IsCoder (λ n. omega arith) alice
      bob (host 1) (host 2) (some 32) none exchange heard new_sum_code 4 2 (decoder_of coder 4 2)
      two_batches (λ x e. refl) alice-IsId bob-IsId (λ e. omega (arith, ap (λ x. get_or x 0 0) e))
      refl exchange-firsts (refl, (refl, refl, refl, tt)) exchange-received refl (omega arith)
      (omega arith) (omega arith) new_sum_code-decoder two_batches-AreSentBatches (omega arith)
