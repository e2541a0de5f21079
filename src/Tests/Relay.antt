-- ===== src/Tests/Relay.antt =====
-- Two peers, and a stranger, at the relay.
use fec.Prelude.{
  ℕ, ◌≡◌, inl, inr, refl, ap, get_or, none, some, List, [], ◌∷◌, ◌++◌, arith, replicate, bytes_eq,
  All,
}
use fec.Relay.{
  uid, UdpAddr, new_server, same_addr, Event, read_error, datagram, check_handshake, serve_all,
}
use fec.Relay.Table.{IsTable, new_server-IsTable, serve_all-IsTable}
use fec.Relay.Forward.{IsTo, TableIn, serve_all-TableIn}
use fec.Relay.Talk.{Turn, from_first, from_second, from_elsewhere, turns, relayed}
use fec.Relay.Session.{IsId, serve_all-relayed}

abbrev pub same_bytes : List ℕ → List ℕ
same_bytes x = x

abbrev pub alice : List ℕ
alice = 1 ∷ replicate 15 7

abbrev pub bob : List ℕ
bob = 2 ∷ replicate 15 7

pub alice-IsId : IsId alice
unfolding replicate
alice-IsId = record { sized = refl; real = λ e. omega (arith, ap (λ x. get_or x 0 0) e) }

pub bob-IsId : IsId bob
unfolding replicate
bob-IsId = record { sized = refl; real = λ e. omega (arith, ap (λ x. get_or x 0 0) e) }

abbrev pub host : ℕ → UdpAddr
host n = record { ip = 10 ∷ 0 ∷ 0 ∷ n ∷ []; port = 4000 }

abbrev talk : List Turn
talk =
    from_first (5 ∷ 6 ∷ []) (some 2)
    ∷ from_elsewhere (9 ∷ []) (host 3) none
    ∷ from_second (7 ∷ []) none
    ∷ []

serve_all-relayed_example :
    (serve_all same_bytes new_server (
      datagram (uid ++ alice) (host 1) (some 32)
      ∷ datagram (uid ++ bob) (host 2) none
      ∷ turns (host 1) (host 2) talk)).0
    ≡ (uid ++ alice, host 1) ∷ (uid ++ bob, host 2) ∷ relayed (host 1) (host 2) talk
unfolding same_addr bytes_eq check_handshake
serve_all-relayed_example =
    serve_all-relayed same_bytes alice bob (host 1) (host 2) (some 32) none talk (λ x e. refl)
      alice-IsId bob-IsId (λ e. omega (arith, ap (λ x. get_or x 0 0) e)) refl
      (refl, (refl, refl, refl, (refl, tt)))

abbrev events : List Event
events =
    read_error
    ∷ datagram (uid ++ alice) (host 1) (some 32)
    ∷ datagram (3 ∷ []) (host 2) (some 1)
    ∷ []

serve_all-IsTable_example : IsTable (serve_all same_bytes new_server events).1
serve_all-IsTable_example = serve_all-IsTable same_bytes events new_server new_server-IsTable

abbrev IsFirstHost : UdpAddr → Type 0
IsFirstHost a = a.ip ≡ 10 ∷ 0 ∷ 0 ∷ 1 ∷ []

new_server-TableIn : TableIn IsFirstHost new_server
new_server-TableIn = record { in0 = λ a e. cc; in1 = λ a e. cc }

serve_all-TableIn_example :
    All (IsTo IsFirstHost) (serve_all same_bytes new_server events).0
    × TableIn IsFirstHost (serve_all same_bytes new_server events).1
unfolding check_handshake
serve_all-TableIn_example =
    serve_all-TableIn same_bytes IsFirstHost events new_server new_server-TableIn
      (inr refl, (inl refl, tt))
