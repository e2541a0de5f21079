-- ===== src/Client/Connect.antt =====
-- `connect` of src/client.go: the sockets are opened, and the relay answers the handshake.
use fec.Prelude.{ℕ, List, ◌++◌, if◌then◌else◌, ltb, ◌==◌, length, take, bytes_eq}
use fec.Io.{Got, got, read_error, Wrote, wrote, write_error}
use fec.Relay.{uid}

-- What opening a socket gives: an error, a connection of another type, or a UDP connection.
pub data Opened : Type 0 where
  open_error other_conn udp_conn : Opened

-- How `connect` fails.
pub data ConnectError : Type 0 where
  no_listener not_udp_listener no_caller not_udp_caller no_server not_udp_server : ConnectError
  write_failed read_failed refused : ConnectError
  short_write short_read : ℕ → ConnectError

pub data Connected : Type 0 where
  connected : Connected
  failed : ConnectError → Connected

-- What the sockets do: how they open, what the server's answers to the write, and what it sends.
pub record Sockets : Type 0 where
  pub listener : Opened
  pub caller : Opened
  pub server : Opened
  pub written : Wrote
  pub reply : Got

unfoldable pub handshake : List ℕ → List ℕ
handshake peer_id = uid ++ peer_id

-- `connection.Read`, and the comparison.
unfoldable pub check_reply : List ℕ → Got → Connected
check_reply peer_id (read_error n) = failed read_failed
check_reply peer_id (got buf) =
    if ltb (length buf) 32
    then failed (short_read (length buf))
    else if bytes_eq (take 32 buf) (handshake peer_id)
    then connected
    else failed refused

-- `connection.Write`, and what comes behind it.
unfoldable pub shake : List ℕ → Wrote → Got → Connected
shake peer_id (write_error n) reply = failed write_failed
shake peer_id (wrote n) reply =
    if n == 32 then check_reply peer_id reply else failed (short_write n)

unfoldable pub opened : Opened → ConnectError → ConnectError → Connected → Connected
opened open_error e f rest = failed e
opened other_conn e f rest = failed f
opened udp_conn e f rest = rest

unfoldable pub connect : Sockets → List ℕ → Connected
connect s peer_id = opened s.listener no_listener not_udp_listener (
    opened s.caller no_caller not_udp_caller
      (opened s.server no_server not_udp_server (shake peer_id s.written s.reply)))
