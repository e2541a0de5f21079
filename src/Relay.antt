-- ===== src/Relay.antt =====
-- cmd/server/main.go: the relay, which two peers register with and which passes the datagrams of
-- one on to the other. github.com/gofrs/uuid is the parameter `from_bytes_or_nil`.
pub mod Table
pub mod Forward
pub mod Talk
pub mod Session
use fec.Prelude.{
  ℕ, ◌+◌, Bool, true, false, not, ◌&&◌, Option, none, some, List, [], ◌∷◌, ◌++◌, if◌then◌else◌, ltb,
  ◌==◌, length, take, slice, replicate, bytes_eq, add64,
}

-- `UID` of src/client.go, the first half of a handshake.
abbrev pub uid : List ℕ
uid = 23 ∷ 81 ∷ 178 ∷ 161 ∷ 15 ∷ 253 ∷ 68 ∷ 254 ∷ 138 ∷ 46 ∷ 211 ∷ 241 ∷ 83 ∷ 18 ∷ 92 ∷ 67 ∷ []

-- `uuid.UUID` is an array of 16 bytes.
abbrev pub uuid_nil : List ℕ
uuid_nil = replicate 16 0

-- `net.UDPAddr`, as far as `AddrPort` reads it.
pub record UdpAddr : Type 0 where
  pub ip : List ℕ
  pub port : ℕ

pub record Peer : Type 0 where
  pub id : List ℕ
  pub addr : Option UdpAddr

-- `Server`, without the connection and the logger.
pub record Server : Type 0 where
  pub peer0 : Peer
  pub peer1 : Peer
  pub total_received : ℕ
  pub total_sent : ℕ

abbrev pub no_peer : Peer
no_peer = record { id = uuid_nil; addr = none }

-- `NewServer`, and the counters of `Serve`.
abbrev pub new_server : Server
new_server = record { peer0 = no_peer; peer1 = no_peer; total_received = 0; total_sent = 0 }

-- The comparison of `AddrPort().String()`; the address of a nil pointer reads `invalid AddrPort`.
unfoldable pub same_addr : Option UdpAddr → Option UdpAddr → Bool
same_addr none none = true
same_addr none (some b) = false
same_addr (some a) none = false
same_addr (some a) (some b) = bytes_eq a.ip b.ip && (a.port == b.port)

unfoldable pub set_route : Server → List ℕ → UdpAddr → Server
set_route s id addr =
    if bytes_eq s.peer0.id id
    then record s { peer0 = record { id = s.peer0.id; addr = some addr } }
    else if bytes_eq s.peer1.id id
    then record s { peer1 = record { id = s.peer1.id; addr = some addr } }
    else if bytes_eq s.peer0.id uuid_nil
    then record s { peer0 = record { id = id; addr = some addr } }
    else if bytes_eq s.peer1.id uuid_nil
    then record s { peer1 = record { id = id; addr = some addr } }
    else s

unfoldable pub route : Server → UdpAddr → Option UdpAddr
route s addr =
    if same_addr s.peer0.addr (some addr)
    then s.peer1.addr
    else if same_addr s.peer1.addr (some addr)
    then s.peer0.addr
    else none

-- What the connection does: `ReadFromUDP` gives an error, or a datagram and its source;
-- `WriteToUDP`, if it is called after it, gives an error or the number of bytes written.
pub data Event : Type 0 where
  read_error : Event
  datagram : List ℕ → UdpAddr → Option ℕ → Event

-- The datagrams that `WriteToUDP` is called with, and their destinations, whether or not the call
-- fails.
abbrev pub Written : Type 0
Written = List (List ℕ × UdpAddr)

-- `totalSent`, once a datagram was written in full.
unfoldable pub count_sent : Server → List ℕ → Option ℕ → Server
count_sent s buf none = s
count_sent s buf (some m) =
    if length buf == m then record s { total_sent = add64 s.total_sent (length buf) } else s

-- A datagram that is no handshake.
unfoldable pub forward : Server → List ℕ → UdpAddr → Option ℕ → Written × Server
forward s buf addr written = elim (route s addr) [
  | none ↦ ([], s)
  | some to ↦ ((buf, to) ∷ [], count_sent s buf written)
]

module _ (from_bytes_or_nil : List ℕ → List ℕ) where
  unfoldable pub check_handshake : List ℕ → List ℕ
  check_handshake buf =
      if ltb (length buf) 32
      then uuid_nil
      else if bytes_eq (take 16 buf) uid
      then from_bytes_or_nil (slice buf 16 32)
      else uuid_nil

  -- One round of `serve`.
  unfoldable pub serve : Server → Event → Written × Server
  serve s read_error = ([], s)
  serve s (datagram buf addr written) =
      let s' : Server = record s { total_received = add64 s.total_received (length buf) } in
      let id = check_handshake buf in
      if not (bytes_eq id uuid_nil)
      then ((buf, addr) ∷ [], set_route s' id addr)
      else forward s' buf addr written

  -- The loop over what the connection does.
  unfoldable pub serve_all : Server → List Event → Written × Server
  serve_all s [] = ([], s)
  serve_all s (e ∷ events) =
      let (written, s') = serve s e in let (later, b) = serve_all s' events in (written ++ later, b)
