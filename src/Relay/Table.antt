-- ===== src/Relay/Table.antt =====
-- The table of peers of cmd/server/main.go.
use fec.Prelude.{
  ℕ, ◌≡◌, ◌≢◌, inl, inr, refl, sym, ◌∙◌, Bool-cases, Option-cases, ◌==◌, Option, none, some, List,
  [], ◌∷◌, bytes_eq-cases, length, add64,
}
use fec.Relay.{
  uuid_nil, UdpAddr, Server, new_server, set_route, route, Event, read_error, datagram,
  check_handshake, forward, count_sent, serve, serve_all,
}

-- The first place is taken first, no peer has both places, and an empty place has no address.
pub record IsTable (s : Server) : Type 0 where
  pub first_first : s.peer0.id ≡ uuid_nil → s.peer1.id ≡ uuid_nil
  pub apart : s.peer0.id ≡ s.peer1.id → s.peer1.id ≡ uuid_nil
  pub empty0 : s.peer0.id ≡ uuid_nil → s.peer0.addr ≡ none
  pub empty1 : s.peer1.id ≡ uuid_nil → s.peer1.addr ≡ none

pub new_server-IsTable : IsTable new_server
new_server-IsTable = record {
  first_first = λ e. refl;
  apart = λ e. refl;
  empty0 = λ e. refl;
  empty1 = λ e. refl;
}

set_route-IsTable :
    (s : Server) (id : List ℕ) (addr : UdpAddr)
    → IsTable s
    → id ≢ uuid_nil
    → IsTable (set_route s id addr)
unfolding set_route
set_route-IsTable s id addr h real = elim (bytes_eq-cases s.peer0.id id) [
  | inl (e, p) ↦ rw e (record {
    first_first = h.first_first;
    apart = h.apart;
    empty0 = λ z. absurd (real (sym p ∙ z));
    empty1 = h.empty1;
  })
  | inr (e, n) ↦ elim (bytes_eq-cases s.peer1.id id) [
    | inl (e1, p1) ↦
        rw (e, e1)
          (record {
            first_first = h.first_first;
            apart = h.apart;
            empty0 = h.empty0;
            empty1 = λ z. absurd (real (sym p1 ∙ z));
          })
    | inr (e1, n1) ↦ elim (bytes_eq-cases s.peer0.id uuid_nil) [
      | inl (e2, p2) ↦
          rw (e, e1, e2)
            (record {
              first_first = λ z. absurd (real z);
              apart = λ z. h.first_first p2;
              empty0 = λ z. absurd (real z);
              empty1 = h.empty1;
            })
      | inr (e2, n2) ↦ elim (bytes_eq-cases s.peer1.id uuid_nil) [
        | inl (e3, p3) ↦
            rw (e, e1, e2, e3)
              (record {
                first_first = λ z. absurd (n2 z);
                apart = λ z. absurd (n z);
                empty0 = h.empty0;
                empty1 = λ z. absurd (real z);
              })
        | inr (e3, n3) ↦ rw (e, e1, e2, e3) h
      ]
    ]
  ]
]

count_sent-IsTable :
    (s : Server) (buf : List ℕ) (written : Option ℕ)
    → IsTable s
    → IsTable (count_sent s buf written)
unfolding count_sent
count_sent-IsTable s buf none h = h
count_sent-IsTable s buf (some m) h = elim (Bool-cases (length buf == m)) [
  | inl e ↦ rw e (record {
    first_first = h.first_first;
    apart = h.apart;
    empty0 = h.empty0;
    empty1 = h.empty1;
  })
  | inr e ↦ rw e h
]

forward-IsTable :
    (s : Server) (buf : List ℕ) (addr : UdpAddr) (written : Option ℕ)
    → IsTable s
    → IsTable (forward s buf addr written).1
unfolding forward
forward-IsTable s buf addr written h = elim (Option-cases (route s addr)) [
  | inl e ↦ rw (e, forward) h
  | inr (to, e) ↦ rw (e, forward) (count_sent-IsTable s buf written h)
]

module _ (from_bytes_or_nil : List ℕ → List ℕ) where
  serve-IsTable : (s : Server) (e : Event) → IsTable s → IsTable (serve from_bytes_or_nil s e).1
  unfolding serve
  serve-IsTable s read_error h = h
  serve-IsTable s (datagram buf addr written) h =
      let s' : Server = record s { total_received = add64 s.total_received (length buf) } in
      let h' : IsTable s' = record {
        first_first = h.first_first;
        apart = h.apart;
        empty0 = h.empty0;
        empty1 = h.empty1;
      } in
      elim (bytes_eq-cases (check_handshake from_bytes_or_nil buf) uuid_nil) [
        | inl (e, p) ↦ rw e (forward-IsTable s' buf addr written h')
        | inr (e, n) ↦ rw e (set_route-IsTable s' (check_handshake from_bytes_or_nil buf) addr h' n)
      ]

  -- Whatever datagrams come: the first place of the table is taken first, no peer has both places,
  -- and an empty place has no address.
  pub serve_all-IsTable :
      (events : List Event) (s : Server)
      → IsTable s
      → IsTable (serve_all from_bytes_or_nil s events).1
  unfolding serve_all
  serve_all-IsTable [] s h = h
  serve_all-IsTable (e ∷ events) s h =
      serve_all-IsTable events (serve from_bytes_or_nil s e).1 (serve-IsTable s e h)
