-- ===== src/Traversal.antt =====
-- src/traversal/server.go: the server that two peers register with and that keeps what each of them
-- sends in a ring. github.com/gofrs/uuid is the parameter `from_bytes_or_nil`. That a stored
-- payload shares its memory with the request is left out.
pub mod Registry
pub mod Members
pub mod Deliver
pub mod Refine
use fec.Prelude.{
  ℕ, Bool, true, false, Option, List, [], ◌∷◌, if◌then◌else◌, ltb, ◌==◌, length, take, drop, slice,
  replicate, bytes_eq,
}
use fec.Buffer.Ring.{Ring, WriteResult, stored, replaced, new_ring, write}
use fec.Relay.{uid, uuid_nil}

pub record Server : Type 0 where
  pub peer0 : List ℕ
  pub peer1 : List ℕ
  pub box0 : Ring (List ℕ)
  pub box1 : Ring (List ℕ)

unfoldable pub new_server : ℕ → Server
new_server buf_size = record {
  peer0 = uuid_nil;
  peer1 = uuid_nil;
  box0 = new_ring 0 (replicate buf_size []);
  box1 = new_ring 0 (replicate buf_size []);
}

pub data ServeError : Type 0 where
  invalid_data max_peers peer_not_found invalid_mode : ServeError

-- How a call of `Serve` ends: what it handed to `Res`; an error; in a wait of the ring; in a panic.
pub data Served : Type 0 where
  ok : List (List ℕ) → Served
  failed : ServeError → Served
  blocked fault : Served

-- The modes of src/traversal/traversal.go.
abbrev pub mode_handshake : ℕ
mode_handshake = 157

abbrev pub mode_send : ℕ
mode_send = 1

abbrev pub mode_ask : ℕ
mode_ask = 131

abbrev pub mode_response : ℕ
mode_response = 2

-- The call of `Serve` behind the call of `Write`.
abbrev pub served : WriteResult → Served
served stored = ok []
served replaced = ok []
served WriteResult.waits = blocked
served WriteResult.fault = fault

-- `switch` of `serveHandshake`.
unfoldable pub register : Server → List ℕ → List ℕ → Served × Server
register s req peer_id =
    if bytes_eq s.peer0 uuid_nil
    then (ok (req ∷ []), record s { peer0 = peer_id })
    else if bytes_eq s.peer1 uuid_nil
    then (ok (req ∷ []), record s { peer1 = peer_id })
    else (failed max_peers, s)

-- `switch` of `serveSend`.
unfoldable pub deliver : Server → List ℕ → List ℕ → Served × Server
deliver s peer_id payload =
    if bytes_eq peer_id s.peer0
    then (let (w, box) = write s.box0 false payload in (served w, record s { box0 = box }))
    else if bytes_eq peer_id s.peer1
    then (let (w, box) = write s.box1 false payload in (served w, record s { box1 = box }))
    else (failed peer_not_found, s)

module _ (from_bytes_or_nil : List ℕ → List ℕ) where
  unfoldable pub serve_handshake : Server → List ℕ → Served × Server
  serve_handshake s req =
      let payload = drop 1 req in
      let peer_id = from_bytes_or_nil (slice payload 16 32) in
      if ltb (length payload) 32
      then (failed invalid_data, s)
      else if bytes_eq (take 16 payload) uid
      then if bytes_eq peer_id uuid_nil then (failed invalid_data, s) else register s req peer_id
      else (failed invalid_data, s)

  unfoldable pub serve_send : Server → List ℕ → Served × Server
  serve_send s req =
      let payload = drop 1 req in
      let peer_id = from_bytes_or_nil (slice payload 0 16) in
      if ltb (length payload) 32
      then (failed invalid_data, s)
      else if bytes_eq peer_id uuid_nil
      then (failed invalid_data, s)
      else deliver s peer_id (drop 16 payload)

  unfoldable pub serve : Server → List ℕ → Served × Server
  serve s [] = (failed invalid_data, s)
  serve s (m ∷ rest) =
      if m == mode_handshake
      then serve_handshake s (m ∷ rest)
      else if m == mode_send
      then serve_send s (m ∷ rest)
      else (failed invalid_mode, s)

  -- A sequence of calls, one after the other.
  unfoldable pub serve_all : Server → List (List ℕ) → List Served
  serve_all s [] = []
  serve_all s (req ∷ reqs) = let (r, s') = serve s req in r ∷ serve_all s' reqs
