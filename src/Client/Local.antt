-- ===== src/Client/Local.antt =====
-- Whom `routeIn` of src/client.go writes to at the local socket.
use fec.Prelude.{ℕ, Bool, true, false, Option, none, some, List, [], ◌∷◌, if◌then◌else◌, All}
use fec.Io.{got, read_error, Wrote, wrote, write_error}
use fec.Relay.{UdpAddr}
use fec.Codec.Decoder.Assembly.Bounds.{All-append}
use fec.Client.Routes.{
  Routes, Event, from_server, from_decoder, from_local, from_encoder, Effect, to_decoder, to_caller,
  to_listener, to_encoder, to_server, Stepped, read_server, write_listener, write_local, read_local,
  write_server, step, route_all, new_routes,
}

-- `Known` is what is known of the addresses from which something comes to the local socket.
module _ (Known : UdpAddr → Type 0) where
  abbrev pub ComesFrom : Event → Type 0
  ComesFrom (from_local (some (buf, addr))) = Known addr
  ComesFrom (from_local none) = Unit
  ComesFrom (from_server g) = Unit
  ComesFrom (from_decoder buf c l) = Unit
  ComesFrom (from_encoder buf w) = Unit

  abbrev pub GoesTo : Effect → Type 0
  GoesTo (to_listener buf addr) = Known addr
  GoesTo (to_decoder buf) = Unit
  GoesTo (to_caller buf) = Unit
  GoesTo (to_encoder buf) = Unit
  GoesTo (to_server buf) = Unit

  abbrev IsKnown : Option UdpAddr → Type 0
  IsKnown none = Unit
  IsKnown (some addr) = Known addr

  abbrev Stays : Stepped → Type 0
  Stays s = All GoesTo s.0 × IsKnown s.1.accepted

  listener-Stays :
      (r : Routes) (buf : List ℕ) (o : Option UdpAddr) (answer : Wrote)
      → IsKnown o
      → IsKnown r.accepted
      → Stays (write_listener r buf o answer)
  unfolding write_listener
  listener-Stays r buf none answer k h = (tt, h)
  listener-Stays r buf (some addr) (wrote n) k h = ((k, tt), h)
  listener-Stays r buf (some addr) (write_error n) k h = ((k, tt), h)

  local-Stays :
      (r : Routes) (buf : List ℕ) (called listened : Wrote)
      → IsKnown r.accepted
      → Stays (write_local r buf called listened)
  unfolding write_local
  local-Stays r buf (write_error n) listened h = ((tt, tt), h)
  local-Stays r buf (wrote n) listened h =
      let (goes, stays) = listener-Stays r buf r.accepted listened h h in ((tt, goes), stays)

  either : (b : Bool) (x y : Stepped) → Stays x → Stays y → Stays (if b then x else y)
  either true x y hx hy = hx
  either false x y hx hy = hy

  step-Stays : (r : Routes) (e : Event) → ComesFrom e → IsKnown r.accepted → Stays (step r e)
  unfolding step read_server read_local write_server
  step-Stays r (from_server (got buf)) c h = either r.reads_server _ _ ((tt, tt), h) (tt, h)
  step-Stays r (from_server (read_error n)) c h = either r.reads_server _ _ (tt, h) (tt, h)
  step-Stays r (from_decoder buf called listened) c h =
      either r.writes_local _ _ (local-Stays r buf called listened h) (tt, h)
  step-Stays r (from_local none) c h = either r.reads_local _ _ (tt, h) (tt, h)
  step-Stays r (from_local (some (buf, addr))) c h = either r.reads_local _ _ ((tt, tt), c) (tt, h)
  step-Stays r (from_encoder buf (wrote n)) c h = either r.writes_server _ _ ((tt, tt), h) (tt, h)
  step-Stays r (from_encoder buf (write_error n)) c h =
      either r.writes_server _ _ ((tt, tt), h) (tt, h)

  route_all-Stays :
      (r : Routes) (events : List Event)
      → All ComesFrom events
      → IsKnown r.accepted
      → Stays (route_all r events)
  unfolding route_all
  route_all-Stays r [] cs h = (tt, h)
  route_all-Stays r (e ∷ events) (c, cs) h =
      let (goes, stays) = step-Stays r e c h in
      let (later, rest) = route_all-Stays (step r e).1 events cs stays in
      (All-append GoesTo (step r e).0 (route_all (step r e).1 events).0 goes later, rest)

  -- The listener's socket of a new client is written to only at addresses from which something has
  -- come to it (`Known` is any property that these have), however the goroutines interleave.
  pub route_all-GoesTo :
      (events : List Event) → All ComesFrom events → All GoesTo (route_all new_routes events).0
  route_all-GoesTo events cs = (route_all-Stays new_routes events cs tt).0
