-- ===== src/Traversal/Deliver.antt =====
-- What the server of src/traversal/server.go does with a payload.
use fec.Prelude.{
  ℕ, suc, ◌+◌, ◌<◌, ◌^◌, ◌≡◌, ◌≢◌, inl, inr, refl, sym, ap, ◌∙◌, true, false, Bool-cases, List, [],
  ◌∷◌, ◌++◌, arith, ◌==◌, length, bytes_eq, bytes_eq_refl, bytes_eq-cases, bytes_eq-false,
}
use mathlib.Core.Path.{subst}
use fec.Buffer.Ring.{Ring, WriteResult, write}
use fec.Buffer.Queue
use fec.Buffer.Refine.{Represents, Represents-write, first-write, size-write}
use fec.Relay.Session.{IsId}
use fec.Traversal.{Server, ok, failed, peer_not_found, blocked, served, deliver}
use fec.Traversal.Registry.{Member, post}
use fec.Traversal.Members.{Members, Sized, Agree}

-- A write to a ring that is full waits, any other appends.
box_full :
    (box : Ring (List ℕ)) (q : List (List ℕ)) (payload : List ℕ)
    → Represents box q
    → box.first + 1 < 2 ^ 64
    → (length q == box.size) ≡ true
    → (served (write box false payload).0 ≡ blocked) × Represents (write box false payload).1 q
unfolding Queue.write
box_full box q payload v fits full =
    let (e, w) = Represents-write box q false payload v fits in
    let to : Queue.write box.size q false payload ≡ (WriteResult.waits, q) = rw full refl in
    (ap served (e ∙ ap (λ r. r.0) to), subst (λ r. Represents (write box false payload).1 r.1) to w)

box_room :
    (box : Ring (List ℕ)) (q : List (List ℕ)) (payload : List ℕ)
    → Represents box q
    → box.first + 1 < 2 ^ 64
    → (length q == box.size) ≡ false
    → (served (write box false payload).0 ≡ ok [])
      × Represents (write box false payload).1 (q ++ (payload ∷ []))
unfolding Queue.write
box_room box q payload v fits room =
    let (e, w) = Represents-write box q false payload v fits in
    let to : Queue.write box.size q false payload ≡ (WriteResult.stored, q ++ (payload ∷ [])) =
      rw room refl in
    (ap served (e ∙ ap (λ r. r.0) to), subst (λ r. Represents (write box false payload).1 r.1) to w)

-- What becomes of the ring that is written to.
record Kept (box box' : Ring (List ℕ)) (n : ℕ) : Type 0 where
  pub same_size : box'.size ≡ box.size
  pub far : box'.first + n < 2 ^ 64

write-Kept :
    (box : Ring (List ℕ)) (payload : List ℕ) (n : ℕ)
    → box.first + suc n < 2 ^ 64
    → Kept box (write box false payload).1 n
write-Kept box payload n far = record {
  same_size = size-write box false payload;
  far = omega (arith, first-write box false payload);
}

-- The first peer sends.
deliver-first :
    (s : Server) (bound n : ℕ) (p : List ℕ) (q : List (List ℕ)) (members : List Member)
    (payload : List ℕ)
    → Represents s.box0 q
    → Sized s bound (suc n)
    → s.peer0 ≡ p
    → ((box : Ring (List ℕ)) (q' : List (List ℕ))
        → Represents box q'
        → Members (record s { box0 = box }) ((p, q') ∷ members))
    → Agree (deliver s p payload) (post bound ((p, q) ∷ members) p payload) bound n
unfolding deliver post
deliver-first s bound n p q members payload r z e0 stands =
    let kept = write-Kept s.box0 payload n z.room0 in
    let sized : Sized (record s { box0 = (write s.box0 false payload).1 }) bound n = record {
      size0 = kept.same_size ∙ z.size0;
      size1 = z.size1;
      room0 = kept.far;
      room1 = omega (arith, z.room1);
    } in
    elim (Bool-cases (length q == bound)) [
      | inl full ↦
          let (reply, w) =
            box_full s.box0 q payload r (omega (arith, z.room0))
              (ap (λ m. length q == m) z.size0 ∙ full) in
          rw (ap (bytes_eq p) e0 ∙ bytes_eq_refl p, bytes_eq_refl p, full)
            (record {
              reply = reply;
              members = stands (write s.box0 false payload).1 q w;
              sized = sized;
            })
      | inr room ↦
          let (reply, w) =
            box_room s.box0 q payload r (omega (arith, z.room0))
              (ap (λ m. length q == m) z.size0 ∙ room) in
          rw (ap (bytes_eq p) e0 ∙ bytes_eq_refl p, bytes_eq_refl p, room)
            (record {
              reply = reply;
              members = stands (write s.box0 false payload).1 (q ++ (payload ∷ [])) w;
              sized = sized;
            })
    ]

-- The second peer sends.
deliver-second :
    (s : Server) (bound n : ℕ) (p id : List ℕ) (q q' : List (List ℕ)) (payload : List ℕ)
    → Members s ((p, q) ∷ (id, q') ∷ [])
    → Sized s bound (suc n)
    → id ≢ p
    → Agree (deliver s id payload) (post bound ((p, q) ∷ (id, q') ∷ []) id payload) bound n
unfolding deliver post
deliver-second s bound n p id q q' payload (e0, v0, e1, v1, r0, r1) z apart =
    let kept = write-Kept s.box1 payload n z.room1 in
    let sized : Sized (record s { box1 = (write s.box1 false payload).1 }) bound n = record {
      size0 = z.size0;
      size1 = kept.same_size ∙ z.size1;
      room0 = omega (arith, z.room0);
      room1 = kept.far;
    } in
    let first : bytes_eq id s.peer0 ≡ false = bytes_eq-false id s.peer0 (λ e. apart (e ∙ e0)) in
    let second : bytes_eq id s.peer1 ≡ true = ap (bytes_eq id) e1 ∙ bytes_eq_refl id in
    elim (Bool-cases (length q' == bound)) [
      | inl full ↦
          let (reply, w) =
            box_full s.box1 q' payload r1 (omega (arith, z.room1))
              (ap (λ m. length q' == m) z.size1 ∙ full) in
          rw (first, second, bytes_eq-false id p apart, bytes_eq_refl id, full)
            (record { reply = reply; members = (e0, v0, e1, v1, r0, w); sized = sized })
      | inr room ↦
          let (reply, w) =
            box_room s.box1 q' payload r1 (omega (arith, z.room1))
              (ap (λ m. length q' == m) z.size1 ∙ room) in
          rw (first, second, bytes_eq-false id p apart, bytes_eq_refl id, room)
            (record { reply = reply; members = (e0, v0, e1, v1, r0, w); sized = sized })
    ]

-- Someone sends who is not registered.
nobody :
    (s : Server) (bound n : ℕ) (members : List Member) (id payload : List ℕ)
    → id ≢ s.peer0
    → id ≢ s.peer1
    → post bound members id payload ≡ (failed peer_not_found, members)
    → Members s members
    → Sized s bound (suc n)
    → Agree (deliver s id payload) (post bound members id payload) bound n
unfolding deliver
nobody s bound n members id payload n0 n1 e h z =
    rw (e, bytes_eq-false id s.peer0 n0, bytes_eq-false id s.peer1 n1)
      (record {
        reply = refl;
        members = h;
        sized = record {
          size0 = z.size0;
          size1 = z.size1;
          room0 = omega (arith, z.room0);
          room1 = omega (arith, z.room1);
        };
      })

-- Anyone sends.
pub deliver-Agree :
    (s : Server) (bound n : ℕ) (members : List Member) (id payload : List ℕ)
    → Members s members
    → Sized s bound (suc n)
    → IsId id
    → Agree (deliver s id payload) (post bound members id payload) bound n
unfolding post
deliver-Agree s bound n [] id payload (e0, e1, r0, r1) z v =
    nobody s bound n [] id payload (λ e. v.real (e ∙ e0)) (λ e. v.real (e ∙ e1)) refl
      (e0, e1, r0, r1) z
deliver-Agree s bound n ((p, q) ∷ []) id payload (e0, v0, e1, r0, r1) z v =
    elim (bytes_eq-cases id p) [
      | inl (e, same) ↦
          rw same (deliver-first s bound n p q [] payload r0 z e0 (λ box q' w. (e0, v0, e1, w, r1)))
      | inr (e, apart) ↦
          nobody s bound n ((p, q) ∷ []) id payload (λ x. apart (x ∙ e0)) (λ x. v.real (x ∙ e1))
            (rw e refl) (e0, v0, e1, r0, r1) z
    ]
deliver-Agree s bound n ((p, q) ∷ (p', q') ∷ []) id payload (e0, v0, e1, v1, r0, r1) z v =
    elim (bytes_eq-cases id p) [
      | inl (e, same) ↦ rw same (
          deliver-first s bound n p q ((p', q') ∷ []) payload r0 z e0
            (λ box q'' w. (e0, v0, e1, v1, w, r1)))
      | inr (e, apart) ↦ elim (bytes_eq-cases id p') [
        | inl (e', same) ↦
            subst
              (λ x.
                Agree (deliver s id payload) (post bound ((p, q) ∷ (x, q') ∷ []) id payload) bound
                  n)
              same
              (deliver-second s bound n p id q q' payload
                (subst (λ x. Members s ((p, q) ∷ (x, q') ∷ [])) (sym same) (e0, v0, e1, v1, r0, r1))
                z apart)
        | inr (e', apart') ↦
            nobody s bound n ((p, q) ∷ (p', q') ∷ []) id payload (λ x. apart (x ∙ e0))
              (λ x. apart' (x ∙ e1)) (rw (e, e') refl) (e0, v0, e1, v1, r0, r1) z
      ]
    ]
deliver-Agree s bound n ((p, q) ∷ (p', q') ∷ m ∷ members) id payload h z v = absurd h
