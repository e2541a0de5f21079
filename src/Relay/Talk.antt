-- ===== src/Relay/Talk.antt =====
-- Two peers that the relay of cmd/server/main.go knows talk to each other.
use fec.Prelude.{
  ℕ, ◌≡◌, inl, inr, refl, true, false, Bool-cases, Option, none, some, List, [], ◌∷◌, ◌++◌, ◌==◌,
  ==_refl, length, bytes_eq_refl, add64,
}
use fec.Relay.{
  uuid_nil, UdpAddr, Server, same_addr, route, Event, datagram, Written, check_handshake, forward,
  count_sent, serve, serve_all,
}

-- What comes once the peers are at `a` and `b`: a datagram of the first or the second peer, or one
-- from elsewhere.
pub data Turn : Type 0 where
  from_first : List ℕ → Option ℕ → Turn
  from_second : List ℕ → Option ℕ → Turn
  from_elsewhere : List ℕ → UdpAddr → Option ℕ → Turn

abbrev pub turns : UdpAddr → UdpAddr → List Turn → List Event
turns a b [] = []
turns a b (from_first buf w ∷ ts) = datagram buf a w ∷ turns a b ts
turns a b (from_second buf w ∷ ts) = datagram buf b w ∷ turns a b ts
turns a b (from_elsewhere buf c w ∷ ts) = datagram buf c w ∷ turns a b ts

-- What the relay writes.
abbrev pub relayed : UdpAddr → UdpAddr → List Turn → Written
relayed a b [] = []
relayed a b (from_first buf w ∷ ts) = (buf, b) ∷ relayed a b ts
relayed a b (from_second buf w ∷ ts) = (buf, a) ∷ relayed a b ts
relayed a b (from_elsewhere buf c w ∷ ts) = relayed a b ts

pub same_addr_refl : (a : UdpAddr) → same_addr (some a) (some a) ≡ true
unfolding same_addr
same_addr_refl a = rw (bytes_eq_refl a.ip, ==_refl a.port) refl

module _ (from_bytes_or_nil : List ℕ → List ℕ) where
  -- No turn is a handshake, and `elsewhere` is neither peer's address.
  abbrev pub IsTalk : UdpAddr → UdpAddr → List Turn → Type 0
  IsTalk a b [] = Unit
  IsTalk a b (from_first buf w ∷ ts) =
      (check_handshake from_bytes_or_nil buf ≡ uuid_nil) × IsTalk a b ts
  IsTalk a b (from_second buf w ∷ ts) =
      (check_handshake from_bytes_or_nil buf ≡ uuid_nil) × IsTalk a b ts
  IsTalk a b (from_elsewhere buf c w ∷ ts) =
      (check_handshake from_bytes_or_nil buf ≡ uuid_nil)
      × (same_addr (some a) (some c) ≡ false)
      × (same_addr (some b) (some c) ≡ false)
      × IsTalk a b ts

  pub record Connects (a b : UdpAddr) (s : Server) : Type 0 where
    pub first : s.peer0.addr ≡ some a
    pub second : s.peer1.addr ≡ some b

  count_sent-Connects :
      (a b : UdpAddr) (s : Server) (buf : List ℕ) (w : Option ℕ)
      → Connects a b s
      → Connects a b (count_sent s buf w)
  unfolding count_sent
  count_sent-Connects a b s buf none h = h
  count_sent-Connects a b s buf (some m) h = elim (Bool-cases (length buf == m)) [
    | inl e ↦ rw e (record { first = h.first; second = h.second })
    | inr e ↦ rw e h
  ]

  -- The server once a datagram has come.
  abbrev pub counted : Server → List ℕ → Server
  counted s buf = record s { total_received = add64 s.total_received (length buf) }

  serve-route :
      (s : Server) (buf : List ℕ) (from : UdpAddr) (w : Option ℕ) (to : UdpAddr)
      → check_handshake from_bytes_or_nil buf ≡ uuid_nil
      → route (counted s buf) from ≡ some to
      → serve from_bytes_or_nil s (datagram buf from w)
        ≡ ((buf, to) ∷ [], count_sent (counted s buf) buf w)
  unfolding serve forward
  serve-route s buf from w to e r = rw (e, bytes_eq_refl uuid_nil, r, forward) refl

  serve-drop :
      (s : Server) (buf : List ℕ) (from : UdpAddr) (w : Option ℕ)
      → check_handshake from_bytes_or_nil buf ≡ uuid_nil
      → route (counted s buf) from ≡ none
      → serve from_bytes_or_nil s (datagram buf from w) ≡ ([], counted s buf)
  unfolding serve forward
  serve-drop s buf from w e r = rw (e, bytes_eq_refl uuid_nil, r, forward) refl

  route-first : (a b : UdpAddr) (s : Server) → Connects a b s → route s a ≡ some b
  unfolding route
  route-first a b s h = rw (h.first, h.second, same_addr_refl a) refl

  route-second :
      (a b : UdpAddr) (s : Server)
      → Connects a b s
      → same_addr (some a) (some b) ≡ false
      → route s b ≡ some a
  unfolding route
  route-second a b s h apart = rw (h.first, h.second, apart, same_addr_refl b) refl

  route-elsewhere :
      (a b c : UdpAddr) (s : Server)
      → Connects a b s
      → same_addr (some a) (some c) ≡ false
      → same_addr (some b) (some c) ≡ false
      → route s c ≡ none
  unfolding route
  route-elsewhere a b c s h na nb = rw (h.first, h.second, na, nb) refl

  pub serve_all-cons :
      (s s' : Server) (e : Event) (events : List Event) (sent later : Written)
      → serve from_bytes_or_nil s e ≡ (sent, s')
      → (serve_all from_bytes_or_nil s' events).0 ≡ later
      → (serve_all from_bytes_or_nil s (e ∷ events)).0 ≡ sent ++ later
  unfolding serve_all
  serve_all-cons s s' e events sent later now rest = rw (now, rest) refl

  pub serve_all-turns :
      (ts : List Turn) (a b : UdpAddr) (s : Server)
      → Connects a b s
      → same_addr (some a) (some b) ≡ false
      → IsTalk a b ts
      → (serve_all from_bytes_or_nil s (turns a b ts)).0 ≡ relayed a b ts
  unfolding serve_all
  serve_all-turns [] a b s h apart talk = refl
  serve_all-turns (from_first buf w ∷ ts) a b s h apart (e, talk) =
      let h' : Connects a b (counted s buf) = record { first = h.first; second = h.second } in
      let s' = count_sent (counted s buf) buf w in
      serve_all-cons s s' (datagram buf a w) (turns a b ts) ((buf, b) ∷ []) (relayed a b ts)
        (serve-route s buf a w b e (route-first a b (counted s buf) h'))
        (serve_all-turns ts a b s' (count_sent-Connects a b (counted s buf) buf w h') apart talk)
  serve_all-turns (from_second buf w ∷ ts) a b s h apart (e, talk) =
      let h' : Connects a b (counted s buf) = record { first = h.first; second = h.second } in
      let s' = count_sent (counted s buf) buf w in
      serve_all-cons s s' (datagram buf b w) (turns a b ts) ((buf, a) ∷ []) (relayed a b ts)
        (serve-route s buf b w a e (route-second a b (counted s buf) h' apart))
        (serve_all-turns ts a b s' (count_sent-Connects a b (counted s buf) buf w h') apart talk)
  serve_all-turns (from_elsewhere buf c w ∷ ts) a b s h apart (e, na, nb, talk) =
      let h' : Connects a b (counted s buf) = record { first = h.first; second = h.second } in
      serve_all-cons s (counted s buf) (datagram buf c w) (turns a b ts) [] (relayed a b ts)
        (serve-drop s buf c w e (route-elsewhere a b c (counted s buf) h' na nb))
        (serve_all-turns ts a b (counted s buf) h' apart talk)
