-- ===== src/Traversal/Registry.antt =====
-- What the server of src/traversal/server.go promises: it registers two peers, in the order in
-- which they come, and keeps the payloads that each of them sends, in order, at most `cap` of each.
use fec.Prelude.{ℕ, List, [], ◌∷◌, ◌++◌, if◌then◌else◌, ltb, ◌==◌, length, bytes_eq}
use fec.Relay.{uid}
use fec.Traversal.{
  Served, ok, failed, blocked, invalid_data, max_peers, peer_not_found, mode_handshake, mode_send,
}

pub data Request : Type 0 where
  handshake : List ℕ → Request
  send : List ℕ → List ℕ → Request

-- The bytes of a request.
abbrev pub encoded : Request → List ℕ
encoded (handshake id) = mode_handshake ∷ uid ++ id
encoded (send id payload) = mode_send ∷ id ++ payload

-- A peer, and what it has sent.
abbrev pub Member : Type 0
Member = List ℕ × List (List ℕ)

unfoldable pub post : ℕ → List Member → List ℕ → List ℕ → Served × List Member
post cap [] id payload = (failed peer_not_found, [])
post cap ((p, q) ∷ members) id payload =
    let (r, rest) = post cap members id payload in
    if bytes_eq id p
    then (if length q == cap
        then (blocked, (p, q) ∷ members)
        else (ok [], (p, q ++ (payload ∷ [])) ∷ members))
    else (r, (p, q) ∷ rest)

unfoldable pub serve : ℕ → List Member → Request → Served × List Member
serve cap members (handshake id) =
    if ltb (length members) 2
    then (ok (encoded (handshake id) ∷ []), members ++ ((id, []) ∷ []))
    else (failed max_peers, members)
serve cap members (send id payload) =
    if ltb (length payload) 16 then (failed invalid_data, members) else post cap members id payload

unfoldable pub serve_all : ℕ → List Member → List Request → List Served
serve_all cap members [] = []
serve_all cap members (req ∷ reqs) =
    let (r, members') = serve cap members req in r ∷ serve_all cap members' reqs
