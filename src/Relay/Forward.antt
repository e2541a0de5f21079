-- ===== src/Relay/Forward.antt =====
-- Where the relay of cmd/server/main.go sends datagrams.
use fec.Prelude.{
  ℕ, ◌≡◌, ◌⊎◌, inl, inr, ap, Bool-cases, Option, none, some, Option-cases, List, [], ◌∷◌, ◌++◌,
  arith, ◌==◌, length, All, bytes_eq, bytes_eq-cases, add64,
}
use mathlib.Core.Path.{subst}
use fec.Relay.{
  uuid_nil, UdpAddr, Server, same_addr, set_route, route, Event, read_error, datagram, Written,
  check_handshake, forward, count_sent, serve, serve_all,
}

-- `P` holds of the addresses in the table.
pub record TableIn (P : UdpAddr → Type 0) (s : Server) : Type 0 where
  pub in0 : (a : UdpAddr) → s.peer0.addr ≡ some a → P a
  pub in1 : (a : UdpAddr) → s.peer1.addr ≡ some a → P a

abbrev pub IsTo : (UdpAddr → Type 0) → List ℕ × UdpAddr → Type 0
IsTo P w = P w.1

set_route-TableIn :
    (P : UdpAddr → Type 0) (s : Server) (id : List ℕ) (addr : UdpAddr)
    → TableIn P s
    → P addr
    → TableIn P (set_route s id addr)
unfolding set_route
set_route-TableIn P s id addr h p = elim (Bool-cases (bytes_eq s.peer0.id id)) [
  | inl e ↦ rw e (record { in0 = new; in1 = h.in1 })
  | inr e ↦ elim (Bool-cases (bytes_eq s.peer1.id id)) [
    | inl e1 ↦ rw (e, e1) (record { in0 = h.in0; in1 = new })
    | inr e1 ↦ elim (Bool-cases (bytes_eq s.peer0.id uuid_nil)) [
      | inl e2 ↦ rw (e, e1, e2) (record { in0 = new; in1 = h.in1 })
      | inr e2 ↦ elim (Bool-cases (bytes_eq s.peer1.id uuid_nil)) [
        | inl e3 ↦ rw (e, e1, e2, e3) (record { in0 = h.in0; in1 = new })
        | inr e3 ↦ rw (e, e1, e2, e3) h
      ]
    ]
  ]
]
  where
    new : (a : UdpAddr) → ◌≡◌ {A = Option UdpAddr} (some addr) (some a) → P a
    new a q = subst P (ap (λ o. elim o [ none ↦ addr | some b ↦ b ]) q) p

route-TableIn :
    (P : UdpAddr → Type 0) (s : Server) (addr to : UdpAddr)
    → TableIn P s
    → route s addr ≡ some to
    → P to
unfolding route
route-TableIn P s addr to h e = elim (Bool-cases (same_addr s.peer0.addr (some addr))) [
  | inl q ↦ h.in1 to (ground arith)
  | inr q ↦ elim (Bool-cases (same_addr s.peer1.addr (some addr))) [
    | inl q1 ↦ h.in0 to (ground arith)
    | inr q1 ↦ absurd (ground arith)
  ]
]

count_sent-TableIn :
    (P : UdpAddr → Type 0) (s : Server) (buf : List ℕ) (written : Option ℕ)
    → TableIn P s
    → TableIn P (count_sent s buf written)
unfolding count_sent
count_sent-TableIn P s buf none h = h
count_sent-TableIn P s buf (some m) h = elim (Bool-cases (length buf == m)) [
  | inl e ↦ rw e (record { in0 = h.in0; in1 = h.in1 })
  | inr e ↦ rw e h
]

abbrev Safe : (UdpAddr → Type 0) → Written × Server → Type 0
Safe P r = All (IsTo P) r.0 × TableIn P r.1

forward-Safe :
    (P : UdpAddr → Type 0) (s : Server) (buf : List ℕ) (addr : UdpAddr) (written : Option ℕ)
    → TableIn P s
    → Safe P (forward s buf addr written)
unfolding forward
forward-Safe P s buf addr written h = elim (Option-cases (route s addr)) [
  | inl e ↦ rw (e, forward) (tt, h)
  | inr (to, e) ↦
      rw (e, forward) ((route-TableIn P s addr to h e, tt), count_sent-TableIn P s buf written h)
]

All-append :
    (P : UdpAddr → Type 0) (xs ys : Written)
    → All (IsTo P) xs
    → All (IsTo P) ys
    → All (IsTo P) (xs ++ ys)
All-append P [] ys h k = k
All-append P (x ∷ xs) ys (hx, h) k = (hx, All-append P xs ys h k)

module _ (from_bytes_or_nil : List ℕ → List ℕ) where
  -- `P` holds of the source of every handshake.
  abbrev pub HandshakesIn : (UdpAddr → Type 0) → List Event → Type 0
  HandshakesIn P [] = Unit
  HandshakesIn P (read_error ∷ events) = HandshakesIn P events
  HandshakesIn P (datagram buf addr written ∷ events) =
      ((check_handshake from_bytes_or_nil buf ≡ uuid_nil) ⊎ P addr) × HandshakesIn P events

  serve-Safe :
      (P : UdpAddr → Type 0) (s : Server) (buf : List ℕ) (addr : UdpAddr) (written : Option ℕ)
      → TableIn P s
      → (check_handshake from_bytes_or_nil buf ≡ uuid_nil) ⊎ P addr
      → Safe P (serve from_bytes_or_nil s (datagram buf addr written))
  unfolding serve
  serve-Safe P s buf addr written h k =
      let s' : Server = record s { total_received = add64 s.total_received (length buf) } in
      let h' : TableIn P s' = record { in0 = h.in0; in1 = h.in1 } in
      elim (bytes_eq-cases (check_handshake from_bytes_or_nil buf) uuid_nil) [
        | inl (e, p) ↦ rw e (forward-Safe P s' buf addr written h')
        | inr (e, n) ↦ elim k [
          | inl p ↦ absurd (n p)
          | inr p ↦
              rw e
                ((p, tt), set_route-TableIn P s' (check_handshake from_bytes_or_nil buf) addr h' p)
        ]
      ]

  -- Let `P` hold of the addresses in the table and of the source of every handshake that comes.
  -- Then whatever datagrams come, and whichever reads and writes fail, the relay writes only to
  -- addresses of which `P` holds: it sends nothing to an address that has not made a handshake.
  pub serve_all-TableIn :
      (P : UdpAddr → Type 0) (events : List Event) (s : Server)
      → TableIn P s
      → HandshakesIn P events
      → All (IsTo P) (serve_all from_bytes_or_nil s events).0
        × TableIn P (serve_all from_bytes_or_nil s events).1
  unfolding serve_all serve
  serve_all-TableIn P [] s h k = (tt, h)
  serve_all-TableIn P (read_error ∷ events) s h k = serve_all-TableIn P events s h k
  serve_all-TableIn P (datagram buf addr written ∷ events) s h (k, ks) =
      let (sent, h') = serve-Safe P s buf addr written h k in
      let (later, h'') =
        serve_all-TableIn P events (serve from_bytes_or_nil s (datagram buf addr written)).1 h'
          ks in
      (All-append P (serve from_bytes_or_nil s (datagram buf addr written)).0 _ sent later, h'')
