-- ===== src/Relay/Session.antt =====
-- Two peers register with a new relay of cmd/server/main.go, and talk to each other.
use fec.Prelude.{
  ℕ, ◌≡◌, ◌≢◌, refl, sym, false, Option, some, List, [], ◌∷◌, ◌++◌, arith, length, take, take_all,
  drop, slice, bytes_eq, bytes_eq_refl, bytes_eq-false, ltb-false, add64,
}
use fec.Relay.{
  uid, uuid_nil, UdpAddr, Server, no_peer, new_server, same_addr, set_route, datagram,
  check_handshake, serve, serve_all,
}
use fec.Relay.Talk.{
  Turn, turns, relayed, IsTalk, Connects, counted, serve_all-cons, serve_all-turns,
}

-- `uuid.FromBytesOrNil` of 16 bytes is the id with these bytes.
abbrev pub KeepsIds : (List ℕ → List ℕ) → Type 0
KeepsIds from_bytes_or_nil = (x : List ℕ) → length x ≡ 16 → from_bytes_or_nil x ≡ x

-- The ids of peers: 16 bytes that are not all zero.
pub record IsId (id : List ℕ) : Type 0 where
  pub sized : length id ≡ 16
  pub real : id ≢ uuid_nil

module _ (from_bytes_or_nil : List ℕ → List ℕ) where
  check_handshake_lem :
      (id : List ℕ)
      → KeepsIds from_bytes_or_nil
      → length id ≡ 16
      → check_handshake from_bytes_or_nil (uid ++ id) ≡ id
  unfolding check_handshake take drop slice bytes_eq
  check_handshake_lem id keeps len =
      rw
        (
          ltb-false (length (uid ++ id)) 32 (omega arith),
          take_all 16 id (omega arith),
          keeps id len,
        )
        refl

  pub serve-handshake :
      (s : Server) (id : List ℕ) (a : UdpAddr) (w : Option ℕ)
      → KeepsIds from_bytes_or_nil
      → IsId id
      → serve from_bytes_or_nil s (datagram (uid ++ id) a w)
        ≡ ((uid ++ id, a) ∷ [], set_route (counted from_bytes_or_nil s (uid ++ id)) id a)
  unfolding serve
  serve-handshake s id a w keeps v =
      rw (check_handshake_lem id keeps v.sized, bytes_eq-false id uuid_nil v.real) refl

  set_route-first :
      (p : List ℕ) (a : UdpAddr) (n : ℕ)
      → IsId p
      → set_route
          (record { peer0 = no_peer; peer1 = no_peer; total_received = n; total_sent = 0 })
          p
          a
        ≡ record {
          peer0 = record { id = p; addr = some a };
          peer1 = no_peer;
          total_received = n;
          total_sent = 0;
        }
  unfolding set_route
  set_route-first p a n v =
      rw (bytes_eq-false uuid_nil p (λ e. v.real (sym e)), bytes_eq_refl uuid_nil, set_route) refl

  set_route-second :
      (p q : List ℕ) (a b : UdpAddr) (n : ℕ)
      → IsId p
      → IsId q
      → p ≢ q
      → set_route
          (record {
            peer0 = record { id = p; addr = some a };
            peer1 = no_peer;
            total_received = n;
            total_sent = 0;
          })
          q
          b
        ≡ record {
          peer0 = record { id = p; addr = some a };
          peer1 = record { id = q; addr = some b };
          total_received = n;
          total_sent = 0;
        }
  unfolding set_route
  set_route-second p q a b n v w apart =
      rw
        (
          bytes_eq-false p q apart,
          bytes_eq-false uuid_nil q (λ e. w.real (sym e)),
          bytes_eq-false p uuid_nil v.real,
          bytes_eq_refl uuid_nil,
          set_route,
        )
        refl

  -- The table of a new server behind the handshakes of two peers.
  registered-Connects :
      (p q : List ℕ) (a b : UdpAddr) (n : ℕ)
      → IsId p
      → IsId q
      → p ≢ q
      → Connects from_bytes_or_nil a b (
          set_route
            (counted from_bytes_or_nil
              (set_route (record new_server { total_received = n }) p a)
              (uid ++ q))
            q
            b)
  registered-Connects p q a b n v w apart =
      rw (set_route-first p a n v, set_route-second p q a b (add64 n (length (uid ++ q))) v w apart)
        (record { first = refl; second = refl })

  -- Two peers with different ids, both real, and different addresses register with a new relay.
  -- Then, whatever the errors of writing, each handshake is answered to its source, every later
  -- datagram of one peer that is no handshake goes, as it is, to the address of the other, and
  -- datagrams from elsewhere that are no handshakes go nowhere.
  pub serve_all-relayed :
      (p q : List ℕ) (a b : UdpAddr) (w x : Option ℕ) (ts : List Turn)
      → KeepsIds from_bytes_or_nil
      → IsId p
      → IsId q
      → p ≢ q
      → same_addr (some a) (some b) ≡ false
      → IsTalk from_bytes_or_nil a b ts
      → (serve_all from_bytes_or_nil new_server
          (datagram (uid ++ p) a w ∷ datagram (uid ++ q) b x ∷ turns a b ts)).0
        ≡ (uid ++ p, a) ∷ (uid ++ q, b) ∷ relayed a b ts
  serve_all-relayed p q a b w x ts keeps vp vq apart addrs talk =
      let s = set_route (counted from_bytes_or_nil new_server (uid ++ p)) p a in
      let s' = set_route (counted from_bytes_or_nil s (uid ++ q)) q b in
      serve_all-cons from_bytes_or_nil new_server s (datagram (uid ++ p) a w) _ ((uid ++ p, a) ∷ [])
        _ (serve-handshake new_server p a w keeps vp)
        (serve_all-cons from_bytes_or_nil s s' (datagram (uid ++ q) b x) _ ((uid ++ q, b) ∷ []) _
          (serve-handshake s q b x keeps vq)
          (serve_all-turns from_bytes_or_nil ts a b s'
            (registered-Connects p q a b (add64 0 (length (uid ++ p))) vp vq apart) addrs talk))
