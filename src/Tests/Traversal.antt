-- ===== src/Tests/Traversal.antt =====
-- Two peers, and a third, at the traversal server.
use fec.Prelude.{◌≡◌, refl, map, List, [], ◌∷◌, arith, replicate}
use fec.Buffer.Ring.{new_ring}
use fec.Traversal.{new_server, serve_all}
use fec.Traversal.Registry
use fec.Traversal.Registry.{Request, handshake, send, encoded}
use fec.Traversal.Members.{Sized}
use fec.Traversal.Refine.{serve_all_refines, new_server-Members}
use fec.Tests.Relay.{same_bytes, alice, bob, alice-IsId, bob-IsId}

abbrev requests : List Request
requests =
    send alice (replicate 16 1)
    ∷ handshake alice
    ∷ send alice (replicate 16 1)
    ∷ send alice (replicate 16 2)
    ∷ send alice (replicate 15 3)
    ∷ handshake bob
    ∷ handshake alice
    ∷ []

-- Rings of one place.
server-Sized : Sized (new_server 1) 1 7
unfolding new_server new_ring replicate
server-Sized = record { size0 = refl; size1 = refl; room0 = omega arith; room1 = omega arith }

serve_all_refines_example :
    serve_all same_bytes (new_server 1) (map encoded requests) ≡ Registry.serve_all 1 [] requests
serve_all_refines_example =
    serve_all_refines same_bytes (λ x e. refl) requests (new_server 1) 1 []
      (new_server-Members 1 (omega arith) (omega arith)) server-Sized
      (
        alice-IsId,
        (alice-IsId, (alice-IsId, (alice-IsId, (alice-IsId, (bob-IsId, (alice-IsId, tt)))))),
      )
