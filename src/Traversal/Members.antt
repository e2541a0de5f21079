-- ===== src/Traversal/Members.antt =====
-- The members that the server of src/traversal/server.go stands for, and how it registers one.
use fec.Prelude.{
  ℕ, suc, ◌+◌, ◌<◌, ◌^◌, ◌≡◌, refl, List, [], ◌∷◌, arith, bytes_eq_refl, bytes_eq-false,
}
use fec.Buffer.Refine.{Represents}
use fec.Relay.{uuid_nil}
use fec.Relay.Session.{IsId}
use fec.Traversal.{Server, Served, register}
use fec.Traversal.Registry
use fec.Traversal.Registry.{Request, handshake, send, encoded, Member, post}

-- The members that the places of the server stand for.
abbrev pub Members : Server → List Member → Type 0
Members s [] =
    (s.peer0 ≡ uuid_nil) × (s.peer1 ≡ uuid_nil) × Represents s.box0 [] × Represents s.box1 []
Members s ((p, q) ∷ []) =
    (s.peer0 ≡ p) × IsId p × (s.peer1 ≡ uuid_nil) × Represents s.box0 q × Represents s.box1 []
Members s ((p, q) ∷ (p', q') ∷ []) =
    (s.peer0 ≡ p) × IsId p × (s.peer1 ≡ p') × IsId p' × Represents s.box0 q × Represents s.box1 q'
Members s ((p, q) ∷ (p', q') ∷ m ∷ members) = ⊥

-- Rings of the same size, and far from the end of their counters.
pub record Sized (s : Server) (bound n : ℕ) : Type 0 where
  pub size0 : s.box0.size ≡ bound
  pub size1 : s.box1.size ≡ bound
  pub room0 : s.box0.first + n < 2 ^ 64
  pub room1 : s.box1.first + n < 2 ^ 64

-- The id of a request is one.
abbrev pub HasId : Request → Type 0
HasId (handshake id) = IsId id
HasId (send id payload) = IsId id

-- The server and the registry answer alike, and go on to stand for each other.
pub record Agree (r : Served × Server) (t : Served × List Member) (bound n : ℕ) : Type 0 where
  pub reply : r.0 ≡ t.0
  pub members : Members r.1 t.1
  pub sized : Sized r.1 bound n

pub register-Agree :
    (s : Server) (bound n : ℕ) (members : List Member) (id : List ℕ)
    → Members s members
    → Sized s bound (suc n)
    → IsId id
    → Agree
        (register s (encoded (handshake id)) id)
        (Registry.serve bound members (handshake id))
        bound
        n
unfolding register Registry.serve
register-Agree s bound n [] id (e0, e1, r0, r1) z v =
    rw (e0, bytes_eq_refl uuid_nil)
      (record {
        reply = refl;
        members = (refl, v, e1, r0, r1);
        sized = record {
          size0 = z.size0;
          size1 = z.size1;
          room0 = omega (arith, z.room0);
          room1 = omega (arith, z.room1);
        };
      })
register-Agree s bound n ((p, q) ∷ []) id (e0, v0, e1, r0, r1) z v =
    rw (e0, e1, bytes_eq_refl uuid_nil, bytes_eq-false p uuid_nil v0.real)
      (record {
        reply = refl;
        members = (refl, v0, refl, v, r0, r1);
        sized = record {
          size0 = z.size0;
          size1 = z.size1;
          room0 = omega (arith, z.room0);
          room1 = omega (arith, z.room1);
        };
      })
register-Agree s bound n ((p, q) ∷ (p', q') ∷ []) id (e0, v0, e1, v1, r0, r1) z v =
    rw (e0, e1, bytes_eq-false p uuid_nil v0.real, bytes_eq-false p' uuid_nil v1.real)
      (record {
        reply = refl;
        members = (refl, v0, refl, v1, r0, r1);
        sized = record {
          size0 = z.size0;
          size1 = z.size1;
          room0 = omega (arith, z.room0);
          room1 = omega (arith, z.room1);
        };
      })
register-Agree s bound n ((p, q) ∷ (p', q') ∷ m ∷ members) id h z v = absurd h
