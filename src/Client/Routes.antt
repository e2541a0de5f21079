-- ===== src/Client/Routes.antt =====
-- `routeIn` and `routeOut` of src/client.go: four goroutines, of which each ends at its first
-- error.
use fec.Prelude.{ℕ, Bool, true, false, Option, none, some, List, [], ◌∷◌, ◌++◌, if◌then◌else◌}
use fec.Io.{Got, got, read_error, Wrote, wrote, write_error}
use fec.Relay.{UdpAddr}

-- Which goroutines run, and `acceptedLocalAddr`.
pub record Routes : Type 0 where
  pub accepted : Option UdpAddr
  pub reads_server : Bool
  pub writes_local : Bool
  pub reads_local : Bool
  pub writes_server : Bool

-- What happens to a goroutine: `reader.Read` answers; the decoder has data, and the caller's and
-- the listener's socket answer to the writes; `ReadFromUDP` answers (`none` is an error); the
-- encoder has a packet, and the writer answers.
pub data Event : Type 0 where
  from_server : Got → Event
  from_decoder : List ℕ → Wrote → Wrote → Event
  from_local : Option (List ℕ × UdpAddr) → Event
  from_encoder : List ℕ → Wrote → Event

-- What a goroutine does.
pub data Effect : Type 0 where
  to_decoder : List ℕ → Effect
  to_caller : List ℕ → Effect
  to_listener : List ℕ → UdpAddr → Effect
  to_encoder : List ℕ → Effect
  to_server : List ℕ → Effect

abbrev pub Stepped : Type 0
Stepped = List Effect × Routes

unfoldable pub read_server : Routes → Got → Stepped
read_server r (read_error n) = ([], record r { reads_server = false })
read_server r (got buf) = (to_decoder buf ∷ [], r)

-- `listenerConn.WriteToUDP`, if a local address was accepted.
unfoldable pub write_listener : Routes → List ℕ → Option UdpAddr → Wrote → Stepped
write_listener r buf none answer = ([], r)
write_listener r buf (some addr) (wrote n) = (to_listener buf addr ∷ [], r)
write_listener r buf (some addr) (write_error n) =
    (to_listener buf addr ∷ [], record r { writes_local = false })

unfoldable pub write_local : Routes → List ℕ → Wrote → Wrote → Stepped
write_local r buf (write_error n) answer = (to_caller buf ∷ [], record r { writes_local = false })
write_local r buf (wrote n) answer =
    let (effects, r') = write_listener r buf r.accepted answer in (to_caller buf ∷ effects, r')

unfoldable pub read_local : Routes → Option (List ℕ × UdpAddr) → Stepped
read_local r none = ([], record r { reads_local = false })
read_local r (some (buf, addr)) = (to_encoder buf ∷ [], record r { accepted = some addr })

unfoldable pub write_server : Routes → List ℕ → Wrote → Stepped
write_server r buf (wrote n) = (to_server buf ∷ [], r)
write_server r buf (write_error n) = (to_server buf ∷ [], record r { writes_server = false })

-- A goroutine that has ended does nothing.
unfoldable pub step : Routes → Event → Stepped
step r (from_server answer) = if r.reads_server then read_server r answer else ([], r)
step r (from_decoder buf called listened) =
    if r.writes_local then write_local r buf called listened else ([], r)
step r (from_local datagram) = if r.reads_local then read_local r datagram else ([], r)
step r (from_encoder buf answer) = if r.writes_server then write_server r buf answer else ([], r)

-- Any interleaving of the four.
unfoldable pub route_all : Routes → List Event → Stepped
route_all r [] = ([], r)
route_all r (e ∷ events) =
    let (now, r') = step r e in let (later, b) = route_all r' events in (now ++ later, b)

-- As `Run` starts them.
abbrev pub new_routes : Routes
new_routes = record {
  accepted = none;
  reads_server = true;
  writes_local = true;
  reads_local = true;
  writes_server = true;
}
