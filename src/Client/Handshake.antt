-- ===== src/Client/Handshake.antt =====
-- `connect` of src/client.go, alone and against the relay of cmd/server/main.go.
use fec.Prelude.{
  ℕ, ◌≡◌, ◌≢◌, ◌↔◌, inl, inr, refl, sym, ap, ◌∙◌, Bool, true, false, Option, List, [], ◌∷◌, ◌++◌,
  arith, ltb-false, lt→ltb, ==_false, length, take, drop, take-append, take-append-drop,
  bytes_eq_refl, bytes_eq-cases, append-nil, length-append, dec_lt, ℕ_discrete,
}
use fec.Io.{Got, got, read_error, Wrote, wrote, write_error}
use fec.Relay.{uid, UdpAddr, Server, datagram, set_route, serve}
use fec.Relay.Talk.{counted}
use fec.Relay.Session.{KeepsIds, IsId, serve-handshake}
use fec.Client.Connect.{
  Opened, open_error, other_conn, udp_conn, Connected, connected, failed, ConnectError, no_listener,
  not_udp_listener, no_caller, not_udp_caller, no_server, not_udp_server, write_failed, read_failed,
  refused, short_write, short_read, Sockets, handshake, check_reply, shake, opened, connect,
}

-- The sockets open, the handshake is written whole, and the reply begins with it.
pub record IsAnswered (s : Sockets) (peer_id : List ℕ) : Type 0 where
  pub listener : s.listener ≡ udp_conn
  pub caller : s.caller ≡ udp_conn
  pub server : s.server ≡ udp_conn
  pub written : s.written ≡ wrote 32
  pub more : List ℕ
  pub reply : s.reply ≡ got (handshake peer_id ++ more)

abbrev is_connected : Connected → Bool
is_connected connected = true
is_connected (failed e) = false

failed≢connected : (e : ConnectError) → failed e ≢ connected
failed≢connected e h = cc

length-handshake : (peer_id : List ℕ) → length peer_id ≡ 16 → length (handshake peer_id) ≡ 32
unfolding handshake
length-handshake peer_id len = omega arith

opened-udp_conn :
    (o : Opened) (e f : ConnectError) (rest : Connected)
    → opened o e f rest ≡ connected
    → (o ≡ udp_conn) × (rest ≡ connected)
unfolding opened
opened-udp_conn open_error e f rest h = absurd (failed≢connected e h)
opened-udp_conn other_conn e f rest h = absurd (failed≢connected f h)
opened-udp_conn udp_conn e f rest h = (refl, h)

check_reply-connected :
    (peer_id : List ℕ) (reply : Got)
    → length peer_id ≡ 16
    → check_reply peer_id reply ≡ connected
    → (more : List ℕ) × (reply ≡ got (handshake peer_id ++ more))
unfolding check_reply
check_reply-connected peer_id (read_error n) len h = absurd (failed≢connected read_failed h)
check_reply-connected peer_id (got buf) len h = elim (dec_lt (length buf) 32) [
  | yes less ↦
      let fails : check_reply peer_id (got buf) ≡ failed (short_read (length buf)) =
        rw (check_reply, lt→ltb (length buf) 32 less) refl in
      absurd (failed≢connected (short_read (length buf)) (sym fails ∙ h))
  | no more ↦ elim (bytes_eq-cases (take 32 buf) (handshake peer_id)) [
    | inl (e, same) ↦
        (drop 32 buf, ap got (sym (take-append-drop 32 buf) ∙ ap (λ xs. xs ++ drop 32 buf) same))
    | inr (e, other) ↦
        let long = ltb-false (length buf) 32 (omega (arith, more)) in
        let fails : check_reply peer_id (got buf) ≡ failed refused =
          rw (check_reply, long, e) refl in
        absurd (failed≢connected refused (sym fails ∙ h))
  ]
]

check_reply-handshake :
    (peer_id more : List ℕ)
    → length peer_id ≡ 16
    → check_reply peer_id (got (handshake peer_id ++ more)) ≡ connected
unfolding check_reply
check_reply-handshake peer_id more len =
    let n = length-handshake peer_id len in
    rw
      (
        check_reply,
        ltb-false (length (handshake peer_id ++ more)) 32
            (omega (arith, n, length-append (handshake peer_id) more)),
        take-append 32 (handshake peer_id) more n,
        bytes_eq_refl (handshake peer_id),
      )
      refl

shake-connected :
    (peer_id : List ℕ) (written : Wrote) (reply : Got)
    → shake peer_id written reply ≡ connected
    → (written ≡ wrote 32) × (check_reply peer_id reply ≡ connected)
unfolding shake
shake-connected peer_id (write_error n) reply h = absurd (failed≢connected write_failed h)
shake-connected peer_id (wrote n) reply h = elim (ℕ_discrete n 32) [
  | yes e ↦ (ap wrote e, sym (rw (shake, e) refl) ∙ h)
  | no ne ↦
      let fails : shake peer_id (wrote n) reply ≡ failed (short_write n) =
        rw (shake, ==_false n 32 ne) refl in
      absurd (failed≢connected (short_write n) (sym fails ∙ h))
]

connect-IsAnswered :
    (s : Sockets) (peer_id : List ℕ)
    → length peer_id ≡ 16
    → connect s peer_id ≡ connected
    → IsAnswered s peer_id
unfolding connect
connect-IsAnswered s peer_id len h =
    let (l, h1) = opened-udp_conn s.listener no_listener not_udp_listener _ h in
    let (c, h2) = opened-udp_conn s.caller no_caller not_udp_caller _ h1 in
    let (v, h3) = opened-udp_conn s.server no_server not_udp_server _ h2 in
    let (w, h4) = shake-connected peer_id s.written s.reply h3 in
    let (more, r) = check_reply-connected peer_id s.reply len h4 in
    record { listener = l; caller = c; server = v; written = w; more = more; reply = r }

IsAnswered-connect :
    (s : Sockets) (peer_id : List ℕ)
    → length peer_id ≡ 16
    → IsAnswered s peer_id
    → connect s peer_id ≡ connected
unfolding connect opened shake
IsAnswered-connect s peer_id len a =
    rw (a.listener, a.caller, a.server, a.written, a.reply, opened, opened, opened, shake)
      (check_reply-handshake peer_id a.more len)

-- For an id of 16 bytes: `connect` succeeds exactly if the three sockets open as UDP connections,
-- the handshake of 32 bytes is written whole, and what the server sends begins with it.
pub connect_iff :
    (s : Sockets) (peer_id : List ℕ)
    → length peer_id ≡ 16
    → (connect s peer_id ≡ connected) ↔ IsAnswered s peer_id
connect_iff s peer_id len = (connect-IsAnswered s peer_id len, IsAnswered-connect s peer_id len)

-- The sockets of a client whose handshake the relay answers with `reply`.
abbrev pub joined : List ℕ → Sockets
joined reply = record {
  listener = udp_conn;
  caller = udp_conn;
  server = udp_conn;
  written = wrote 32;
  reply = got reply;
}

-- Whatever the table of the relay holds, it answers the handshake of a client with a real id by one
-- datagram to the client's address, and with that answer the client's `connect` succeeds.
pub connect-serve :
    (from_bytes_or_nil : List ℕ → List ℕ) (s : Server) (peer_id : List ℕ) (a : UdpAddr)
    (w : Option ℕ)
    → KeepsIds from_bytes_or_nil
    → IsId peer_id
    → (reply : List ℕ) × (t : Server) × (serve from_bytes_or_nil s
          (datagram (handshake peer_id) a w)
        ≡ ((reply, a) ∷ [], t))
      × (connect (joined reply) peer_id ≡ connected)
unfolding handshake
connect-serve from_bytes_or_nil s peer_id a w keeps v =
    let answered : IsAnswered (joined (uid ++ peer_id)) peer_id = record {
      listener = refl;
      caller = refl;
      server = refl;
      written = refl;
      more = [];
      reply = ap got (sym (append-nil (uid ++ peer_id)));
    } in
    (
      uid ++ peer_id,
      set_route (counted from_bytes_or_nil s (uid ++ peer_id)) peer_id a,
      serve-handshake from_bytes_or_nil s peer_id a w keeps v,
      IsAnswered-connect (joined (uid ++ peer_id)) peer_id v.sized answered,
    )
