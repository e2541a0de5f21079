-- ===== src/Traversal/Refine.antt =====
-- The server of src/traversal/server.go against the registry.
use fec.Prelude.{
  ℕ, suc, ◌≤◌, ◌<◌, ◌^◌, ◌≡◌, refl, ap₂, map, dec_lt, List, [], ◌∷◌, ◌++◌, arith, ltb-false,
  take-append, drop-append, lt→ltb, length, length-append, length-replicate, take, take_all, drop,
  slice, replicate, bytes_eq, bytes_eq-false, All,
}
use fec.Buffer.Ring.{new_ring}
use fec.Buffer.Refine.{Represents, new_ring-Represents}
use fec.Relay.{uid, uuid_nil}
use fec.Relay.Session.{KeepsIds, IsId}
use fec.Traversal.{
  Server, new_server, failed, invalid_data, register, deliver, serve_handshake, serve_send, serve,
  serve_all,
}
use fec.Traversal.Registry
use fec.Traversal.Registry.{Request, handshake, send, encoded, Member, post}
use fec.Traversal.Members.{Members, Sized, HasId, Agree, register-Agree}
use fec.Traversal.Deliver.{deliver-Agree}

module _ (from_bytes_or_nil : List ℕ → List ℕ) (keeps : KeepsIds from_bytes_or_nil) where
  serve-register :
      (s : Server) (id : List ℕ)
      → IsId id
      → serve from_bytes_or_nil s (encoded (handshake id)) ≡ register s (encoded (handshake id)) id
  unfolding serve serve_handshake take drop slice bytes_eq
  serve-register s id v =
      rw
        (
          ltb-false (length (uid ++ id)) 32 (omega (arith, v.sized)),
          take_all 16 id (omega (arith, v.sized)),
          keeps id v.sized,
          bytes_eq-false id uuid_nil v.real,
        )
        refl

  serve-deliver :
      (s : Server) (id payload : List ℕ)
      → IsId id
      → 16 ≤ length payload
      → serve from_bytes_or_nil s (encoded (send id payload)) ≡ deliver s id payload
  unfolding serve serve_send drop slice
  serve-deliver s id payload v enough =
      rw
        (
          ltb-false (length (id ++ payload)) 32 (omega (arith, length-append id payload, v.sized)),
          take-append 16 id payload v.sized,
          keeps id v.sized,
          bytes_eq-false id uuid_nil v.real,
          drop-append 16 id payload v.sized,
        )
        refl

  serve-short :
      (s : Server) (id payload : List ℕ)
      → IsId id
      → length payload < 16
      → serve from_bytes_or_nil s (encoded (send id payload)) ≡ (failed invalid_data, s)
  unfolding serve serve_send drop slice
  serve-short s id payload v short =
      rw (lt→ltb (length (id ++ payload)) 32 (omega (arith, length-append id payload, v.sized)))
        refl

  serve-Agree :
      (s : Server) (bound n : ℕ) (members : List Member) (req : Request)
      → Members s members
      → Sized s bound (suc n)
      → HasId req
      → Agree (serve from_bytes_or_nil s (encoded req)) (Registry.serve bound members req) bound n
  unfolding Registry.serve
  serve-Agree s bound n members (handshake id) h z v =
      rw (serve-register s id v) (register-Agree s bound n members id h z v)
  serve-Agree s bound n members (send id payload) h z v = elim (dec_lt (length payload) 16) [
    | yes short ↦
        rw (serve-short s id payload v short, lt→ltb (length payload) 16 short)
          (record {
            reply = refl;
            members = h;
            sized = record {
              size0 = z.size0;
              size1 = z.size1;
              room0 = omega (arith, z.room0);
              room1 = omega (arith, z.room1);
            };
          })
    | no long ↦
        rw
          (
            serve-deliver s id payload v (omega (arith, long)),
            ltb-false (length payload) 16 (omega (arith, long)),
          )
          (deliver-Agree s bound n members id payload h z v)
  ]

  -- A server that stands for some members, with rings of size `bound`, answers every sequence of
  -- handshakes and sends with real ids as the registry of these members does, as long as no
  -- counter of a ring reaches 2 ^ 64: it registers two peers and refuses a third, stores what a
  -- registered peer sends behind what it sent before, waits when the ring is full, and refuses a
  -- payload of less than 16 bytes and a peer that is not registered.
  pub serve_all_refines :
      (reqs : List Request) (s : Server) (bound : ℕ) (members : List Member)
      → Members s members
      → Sized s bound (length reqs)
      → All HasId reqs
      → serve_all from_bytes_or_nil s (map encoded reqs) ≡ Registry.serve_all bound members reqs
  unfolding serve_all Registry.serve_all
  serve_all_refines [] s bound members h z v = refl
  serve_all_refines (req ∷ reqs) s bound members h z (v, vs) =
      let a = serve-Agree s bound (length reqs) members req h z v in
      ap₂ (λ x xs. x ∷ xs) a.reply
        (serve_all_refines reqs (serve from_bytes_or_nil s (encoded req)).1 bound
          (Registry.serve bound members req).1 a.members a.sized vs)

-- A new server stands for no members.
pub new_server-Members : (n : ℕ) → 0 < n → n < 2 ^ 64 → Members (new_server n) []
unfolding new_server
new_server-Members n pos small = (refl, refl, ring, ring)
  where
    ring : Represents {A = List ℕ} (new_ring 0 (replicate n [])) []
    ring =
        new_ring-Represents (replicate n []) (omega (arith, length-replicate {A = List ℕ} n []))
          (omega (arith, length-replicate {A = List ℕ} n []))
