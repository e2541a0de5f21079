-- ===== src/Client/Lanes.antt =====
-- The four goroutines of `routeIn` and `routeOut` of src/client.go, in any interleaving.
use fec.Prelude.{arith, ℕ, ◌≡◌, refl, ap, ◌∙◌, true, Option, none, some, List, [], ◌∷◌, ◌++◌}
use fec.Io.{got, read_error, wrote, write_error}
use fec.Relay.{UdpAddr}
use fec.Client.Routes.{
  Routes, Event, from_server, from_decoder, from_local, from_encoder, Effect, to_decoder, to_caller,
  to_listener, to_encoder, to_server, read_server, write_listener, write_local, read_local,
  write_server, step, route_all, new_routes,
}
use fec.Client.Lane.{
  decoder_in, encoder_in, server_in, local_out, server_reads, local_reads, encoder_gives,
  decoder_gives,
}

decoder_in-append : (xs ys : List Effect) → decoder_in (xs ++ ys) ≡ decoder_in xs ++ decoder_in ys
unfolding decoder_in
decoder_in-append [] ys = refl
decoder_in-append (to_decoder buf ∷ xs) ys = ap (λ zs. buf ∷ zs) (decoder_in-append xs ys)
decoder_in-append (to_caller buf ∷ xs) ys = decoder_in-append xs ys
decoder_in-append (to_listener buf a ∷ xs) ys = decoder_in-append xs ys
decoder_in-append (to_encoder buf ∷ xs) ys = decoder_in-append xs ys
decoder_in-append (to_server buf ∷ xs) ys = decoder_in-append xs ys

step-decoder_in :
    (r : Routes) (e : Event) (events : List Event)
    → decoder_in (step r e).0 ++ server_reads (step r e).1.reads_server events
      ≡ server_reads r.reads_server (e ∷ events)
unfolding step decoder_in server_reads read_server read_local write_server write_local
    write_listener
step-decoder_in r (from_server (got buf)) events = ground arith
step-decoder_in r (from_server (read_error n)) events = ground arith
step-decoder_in r (from_decoder buf (wrote n) (wrote m)) events = ground arith
step-decoder_in r (from_decoder buf (wrote n) (write_error m)) events = ground arith
step-decoder_in r (from_decoder buf (write_error n) l) events = ground arith
step-decoder_in r (from_local none) events = ground arith
step-decoder_in r (from_local (some (buf, a))) events = ground arith
step-decoder_in r (from_encoder buf (wrote n)) events = ground arith
step-decoder_in r (from_encoder buf (write_error n)) events = ground arith

encoder_in-append : (xs ys : List Effect) → encoder_in (xs ++ ys) ≡ encoder_in xs ++ encoder_in ys
unfolding encoder_in
encoder_in-append [] ys = refl
encoder_in-append (to_decoder buf ∷ xs) ys = encoder_in-append xs ys
encoder_in-append (to_caller buf ∷ xs) ys = encoder_in-append xs ys
encoder_in-append (to_listener buf a ∷ xs) ys = encoder_in-append xs ys
encoder_in-append (to_encoder buf ∷ xs) ys = ap (λ zs. buf ∷ zs) (encoder_in-append xs ys)
encoder_in-append (to_server buf ∷ xs) ys = encoder_in-append xs ys

step-encoder_in :
    (r : Routes) (e : Event) (events : List Event)
    → encoder_in (step r e).0 ++ local_reads (step r e).1.reads_local events
      ≡ local_reads r.reads_local (e ∷ events)
unfolding step encoder_in local_reads read_server read_local write_server write_local write_listener
step-encoder_in r (from_server (got buf)) events = ground arith
step-encoder_in r (from_server (read_error n)) events = ground arith
step-encoder_in r (from_decoder buf (wrote n) (wrote m)) events = ground arith
step-encoder_in r (from_decoder buf (wrote n) (write_error m)) events = ground arith
step-encoder_in r (from_decoder buf (write_error n) l) events = ground arith
step-encoder_in r (from_local none) events = ground arith
step-encoder_in r (from_local (some (buf, a))) events = ground arith
step-encoder_in r (from_encoder buf (wrote n)) events = ground arith
step-encoder_in r (from_encoder buf (write_error n)) events = ground arith

server_in-append : (xs ys : List Effect) → server_in (xs ++ ys) ≡ server_in xs ++ server_in ys
unfolding server_in
server_in-append [] ys = refl
server_in-append (to_decoder buf ∷ xs) ys = server_in-append xs ys
server_in-append (to_caller buf ∷ xs) ys = server_in-append xs ys
server_in-append (to_listener buf a ∷ xs) ys = server_in-append xs ys
server_in-append (to_encoder buf ∷ xs) ys = server_in-append xs ys
server_in-append (to_server buf ∷ xs) ys = ap (λ zs. buf ∷ zs) (server_in-append xs ys)

step-server_in :
    (r : Routes) (e : Event) (events : List Event)
    → server_in (step r e).0 ++ encoder_gives (step r e).1.writes_server events
      ≡ encoder_gives r.writes_server (e ∷ events)
unfolding step server_in encoder_gives read_server read_local write_server write_local
    write_listener
step-server_in r (from_server (got buf)) events = ground arith
step-server_in r (from_server (read_error n)) events = ground arith
step-server_in r (from_decoder buf (wrote n) (wrote m)) events = ground arith
step-server_in r (from_decoder buf (wrote n) (write_error m)) events = ground arith
step-server_in r (from_decoder buf (write_error n) l) events = ground arith
step-server_in r (from_local none) events = ground arith
step-server_in r (from_local (some (buf, a))) events = ground arith
step-server_in r (from_encoder buf (wrote n)) events = ground arith
step-server_in r (from_encoder buf (write_error n)) events = ground arith

local_out-append : (xs ys : List Effect) → local_out (xs ++ ys) ≡ local_out xs ++ local_out ys
unfolding local_out
local_out-append [] ys = refl
local_out-append (to_decoder buf ∷ xs) ys = local_out-append xs ys
local_out-append (to_caller buf ∷ xs) ys = ap (λ zs. (buf, none) ∷ zs) (local_out-append xs ys)
local_out-append (to_listener buf a ∷ xs) ys =
    ap (λ zs. (buf, some a) ∷ zs) (local_out-append xs ys)
local_out-append (to_encoder buf ∷ xs) ys = local_out-append xs ys
local_out-append (to_server buf ∷ xs) ys = local_out-append xs ys

-- What is due at the local sockets.
abbrev local_due : Routes → List Event → List (List ℕ × Option UdpAddr)
local_due r = decoder_gives r.writes_local r.accepted r.reads_local

step-local_out :
    (r : Routes) (e : Event) (events : List Event)
    → local_out (step r e).0 ++ local_due (step r e).1 events ≡ local_due r (e ∷ events)
unfolding step local_out decoder_gives read_server read_local write_server write_local
    write_listener
step-local_out r (from_server (got buf)) events = ground arith
step-local_out r (from_server (read_error n)) events = ground arith
step-local_out r (from_decoder buf (wrote n) (wrote m)) events = ground arith
step-local_out r (from_decoder buf (wrote n) (write_error m)) events = ground arith
step-local_out r (from_decoder buf (write_error n) l) events = ground arith
step-local_out r (from_local none) events = ground arith
step-local_out r (from_local (some (buf, a))) events = ground arith
step-local_out r (from_encoder buf (wrote n)) events = ground arith
step-local_out r (from_encoder buf (write_error n)) events = ground arith

-- A lane: what it picks of the effects, and what is due, step by step.
module _ {A : Type 0} (pick : List Effect → List A) (due : Routes → List Event → List A)
    (pick-append : (xs ys : List Effect) → pick (xs ++ ys) ≡ pick xs ++ pick ys)
    (pick-nil : (r : Routes) → pick [] ≡ due r [])
    (pick-step : (r : Routes) (e : Event) (events : List Event)
      → pick (step r e).0 ++ due (step r e).1 events ≡ due r (e ∷ events)) where
  lane : (r : Routes) (events : List Event) → pick (route_all r events).0 ≡ due r events
  unfolding route_all
  lane r [] = pick-nil r
  lane r (e ∷ events) =
      pick-append (step r e).0 (route_all (step r e).1 events).0
      ∙ ap (λ xs. pick (step r e).0 ++ xs) (lane (step r e).1 events)
      ∙ pick-step r e events

decoder_in-nil : (r : Routes) → decoder_in [] ≡ server_reads r.reads_server []
unfolding decoder_in server_reads
decoder_in-nil r = ground arith

encoder_in-nil : (r : Routes) → encoder_in [] ≡ local_reads r.reads_local []
unfolding encoder_in local_reads
encoder_in-nil r = ground arith

server_in-nil : (r : Routes) → server_in [] ≡ encoder_gives r.writes_server []
unfolding server_in encoder_gives
server_in-nil r = ground arith

local_out-nil : (r : Routes) → local_out [] ≡ local_due r []
unfolding local_out decoder_gives
local_out-nil r = ground arith

-- However the four goroutines of a running client interleave with one another: the decoder gets
-- what the reader gives, in order, up to its first error; the encoder gets what comes to the local
-- socket, in order, up to its first error; and to the relay goes what the encoder gives, in order,
-- up to the first packet whose write fails. What the decoder gives is written, piece by piece and
-- in order, by the caller, and by the listener to where the last datagram came from, once one has
-- come and as long as datagrams are read, up to the first write that fails. So an error of one
-- goroutine does not touch what the others pass on.
pub route_all-lanes :
    (events : List Event)
    → (decoder_in (route_all new_routes events).0 ≡ server_reads true events)
      × (encoder_in (route_all new_routes events).0 ≡ local_reads true events)
      × (server_in (route_all new_routes events).0 ≡ encoder_gives true events)
      × (local_out (route_all new_routes events).0 ≡ decoder_gives true none true events)
route_all-lanes events = (
  lane decoder_in (λ r. server_reads r.reads_server) decoder_in-append decoder_in-nil
      step-decoder_in new_routes events,
  lane encoder_in (λ r. local_reads r.reads_local) encoder_in-append encoder_in-nil step-encoder_in
      new_routes events,
  lane server_in (λ r. encoder_gives r.writes_server) server_in-append server_in-nil step-server_in
      new_routes events,
  lane local_out local_due local_out-append local_out-nil step-local_out new_routes events,
)
