-- ===== src/Client/Lane.antt =====
-- What passes through the four goroutines of `routeIn` and `routeOut` of src/client.go: what goes
-- out of each, and what is due by what comes.
use fec.Prelude.{ℕ, Bool, true, false, Option, none, some, List, [], ◌∷◌}
use fec.Io.{got, read_error, wrote, write_error}
use fec.Relay.{UdpAddr}
use fec.Client.Routes.{
  Event, from_server, from_decoder, from_local, from_encoder, Effect, to_decoder, to_caller,
  to_listener, to_encoder, to_server,
}

-- What goes to the decoder, to the encoder and to the server.
unfoldable pub decoder_in : List Effect → List (List ℕ)
decoder_in [] = []
decoder_in (to_decoder buf ∷ es) = buf ∷ decoder_in es
decoder_in (e ∷ es) = decoder_in es

unfoldable pub encoder_in : List Effect → List (List ℕ)
encoder_in [] = []
encoder_in (to_encoder buf ∷ es) = buf ∷ encoder_in es
encoder_in (e ∷ es) = encoder_in es

unfoldable pub server_in : List Effect → List (List ℕ)
server_in [] = []
server_in (to_server buf ∷ es) = buf ∷ server_in es
server_in (e ∷ es) = server_in es

-- What is written at the local sockets: by the caller, or by the listener to an address.
unfoldable pub local_out : List Effect → List (List ℕ × Option UdpAddr)
local_out [] = []
local_out (to_caller buf ∷ es) = (buf, none) ∷ local_out es
local_out (to_listener buf addr ∷ es) = (buf, some addr) ∷ local_out es
local_out (e ∷ es) = local_out es

-- What the reader gives before its first error, what comes to the listener before its first error,
-- and what the encoder gives up to the first packet that the writer does not take; nothing, if the
-- goroutine has ended.
unfoldable pub server_reads : Bool → List Event → List (List ℕ)
server_reads false events = []
server_reads true [] = []
server_reads true (from_server (got buf) ∷ events) = buf ∷ server_reads true events
server_reads true (from_server (read_error n) ∷ events) = []
server_reads true (from_decoder buf c l ∷ events) = server_reads true events
server_reads true (from_local d ∷ events) = server_reads true events
server_reads true (from_encoder buf w ∷ events) = server_reads true events

unfoldable pub local_reads : Bool → List Event → List (List ℕ)
local_reads false events = []
local_reads true [] = []
local_reads true (from_local (some (buf, addr)) ∷ events) = buf ∷ local_reads true events
local_reads true (from_local none ∷ events) = []
local_reads true (from_server g ∷ events) = local_reads true events
local_reads true (from_decoder buf c l ∷ events) = local_reads true events
local_reads true (from_encoder buf w ∷ events) = local_reads true events

unfoldable pub encoder_gives : Bool → List Event → List (List ℕ)
encoder_gives false events = []
encoder_gives true [] = []
encoder_gives true (from_encoder buf (wrote n) ∷ events) = buf ∷ encoder_gives true events
encoder_gives true (from_encoder buf (write_error n) ∷ events) = buf ∷ []
encoder_gives true (from_local d ∷ events) = encoder_gives true events
encoder_gives true (from_server g ∷ events) = encoder_gives true events
encoder_gives true (from_decoder buf c l ∷ events) = encoder_gives true events

-- What the decoder gives, each piece written by the caller and, once something has come to the
-- listener, by the listener to where the last datagram came from, up to the first error of a write.
-- `known` is that address, and `reads` is whether datagrams still come.
unfoldable pub decoder_gives :
    Bool → Option UdpAddr → Bool → List Event → List (List ℕ × Option UdpAddr)
decoder_gives false known reads events = []
decoder_gives true known reads [] = []
decoder_gives true known true (from_local (some (buf, addr)) ∷ events) =
    decoder_gives true (some addr) true events
decoder_gives true known true (from_local none ∷ events) = decoder_gives true known false events
decoder_gives true known false (from_local d ∷ events) = decoder_gives true known false events
decoder_gives true known reads (from_decoder buf (write_error n) l ∷ events) = (buf, none) ∷ []
decoder_gives true none reads (from_decoder buf (wrote n) l ∷ events) =
    (buf, none) ∷ decoder_gives true none reads events
decoder_gives true (some a) reads (from_decoder buf (wrote n) (wrote m) ∷ events) =
    (buf, none) ∷ (buf, some a) ∷ decoder_gives true (some a) reads events
decoder_gives true (some a) reads (from_decoder buf (wrote n) (write_error m) ∷ events) =
    (buf, none) ∷ (buf, some a) ∷ []
decoder_gives true known reads (from_server g ∷ events) = decoder_gives true known reads events
decoder_gives true known reads (from_encoder buf w ∷ events) = decoder_gives true known reads events
