-- ===== src/Codec/Recovery/Delivered.antt =====
-- From `encode` of src/codec/encoder.go to the chunk that `restore` of src/codec/decoder.go sends
-- on, through the line of the assembler.
use fec.Prelude.{
  ℕ, zero, suc, ◌+◌, ◌*◌, ◌^◌, ◌≤◌, ◌<◌, ◌≡◌, ◌≢◌, refl, sym, ap, ◌∙◌, Option, none, some, List, [],
  ◌∷◌, arith, length, get_elem?, get_elem?-set_ne, set, replicate, add64, All,
}
use mathlib.Core.Path.{subst}
use fec.Codec.Packet.{PacketV2}
use fec.Codec.Chunk.{Chunk, chunk_bytes}
use fec.Codec.Encoder.{Coder}
use fec.Codec.Encoder.Encode.{encode}
use fec.Codec.Decoder.{Assembler}
use fec.Codec.Decoder.Assembly.{assemble_all}
use fec.Codec.Decoder.Assembly.Geometry.{le-mul}
use fec.Codec.Decoder.Assembly.Step.{IsFor}
use fec.Codec.Decoder.Assembly.Collect.{place, Done, Ready, assemble_all_lem}
use fec.Codec.Decoder.Restore.{restore}
use fec.Codec.Recovery.Packets.{packets_of, length-packets_of, Carries, Arrives, received}
use fec.Codec.Recovery.Restored.{restorer_of, IsCoder, Fits, encode_lem, restore-encode}

-- The packet carries the data of the one that stands at its number among the packets.
abbrev pub IsOneOf : List PacketV2 → PacketV2 → Type 0
IsOneOf packets q = (p : PacketV2) × (get_elem? packets q.psn ≡ some p) × Carries p q

-- No two packets have the same number.
abbrev pub Distinct : List PacketV2 → Type 0
Distinct [] = Unit
Distinct (p ∷ ps) = All (λ q. p.psn ≢ q.psn) ps × Distinct ps

Arrives-nothing : (packets : List PacketV2) → Arrives packets (replicate (length packets) none)
unfolding replicate
Arrives-nothing [] = tt
Arrives-nothing (p ∷ ps) = (tt, Arrives-nothing ps)

received-nothing : (n : ℕ) → received (replicate n none) ≡ 0
unfolding replicate
received-nothing zero = refl
received-nothing (suc n) = received-nothing n

Arrives-set :
    (packets : List PacketV2) (cells : List (Option PacketV2)) (i : ℕ) (p q : PacketV2)
    → Arrives packets cells
    → get_elem? packets i ≡ some p
    → Carries p q
    → Arrives packets (set cells i (some q))
Arrives-set [] [] i p q a e c = tt
Arrives-set [] (g ∷ cells) i p q a e c = absurd a
Arrives-set (x ∷ xs) [] i p q a e c = absurd a
Arrives-set (x ∷ xs) (g ∷ cells) zero p q (h, a) e c =
    (subst (λ y. Carries y q) (sym (ap (λ o. elim o [ none ↦ x | some y ↦ y ]) e)) c, a)
Arrives-set (x ∷ xs) (g ∷ cells) (suc i) p q (h, a) e c = (h, Arrives-set xs cells i p q a e c)

received-set :
    (cells : List (Option PacketV2)) (i : ℕ) (p : PacketV2)
    → get_elem? cells i ≡ some none
    → received (set cells i (some p)) ≡ received cells + 1
received-set [] i p e = cc
received-set (none ∷ cells) zero p e = omega arith
received-set (some q ∷ cells) zero p e = cc
received-set (none ∷ cells) (suc i) p e = received-set cells i p e
received-set (some q ∷ cells) (suc i) p e = omega (arith, received-set cells i p e)

-- The place of each of these packets is empty.
abbrev AllFree : List (Option PacketV2) → List PacketV2 → Type 0
AllFree cells = All (λ q. get_elem? cells q.psn ≡ some none)

AllFree-set :
    (cells : List (Option PacketV2)) (p : PacketV2) (ps : List PacketV2)
    → All (λ q. p.psn ≢ q.psn) ps
    → AllFree cells ps
    → AllFree (set cells p.psn (some p)) ps
AllFree-set cells p [] d f = tt
AllFree-set cells p (q ∷ ps) (d, ds) (f, fs) =
    (get_elem?-set_ne cells p.psn q.psn (some p) d ∙ f, AllFree-set cells p ps ds fs)

-- Distinct packets in free places arrive, each of them.
place-Arrives :
    (packets : List PacketV2) (cells : List (Option PacketV2)) (ps : List PacketV2)
    → Arrives packets cells
    → All (IsOneOf packets) ps
    → Distinct ps
    → AllFree cells ps
    → Arrives packets (place ps cells) × (received (place ps cells) ≡ received cells + length ps)
unfolding place
place-Arrives packets cells [] a o d f = (a, omega arith)
place-Arrives packets cells (p ∷ ps) a (o, os) (d, ds) (f, fs) =
    let (a', n) =
      place-Arrives packets (set cells p.psn (some p)) ps
        (Arrives-set packets cells p.psn o.0 p a o.1 o.2) os ds (AllFree-set cells p ps d fs) in
    (a', omega (arith, n, received-set cells p.psn p f))

get_elem?-replicate {ℓ} :
    {A : Type ℓ} (n i : ℕ) (a : A) → i < n → get_elem? (replicate n a) i ≡ some a
unfolding replicate
get_elem?-replicate zero i a h = absurd (omega arith)
get_elem?-replicate (suc n) zero a h = refl
get_elem?-replicate (suc n) (suc i) a h = get_elem?-replicate n i a (omega arith)

-- A packet of chunk `csn` among the packets has the number of the chunk, and a place.
pub packets_of-IsFor :
    (csn i k : ℕ) (shards : List (List ℕ)) (q : PacketV2)
    → get_elem? (packets_of csn i shards) k ≡ some q
    → (q.csn ≡ csn) × (k < length shards)
packets_of-IsFor csn i k [] q e = cc
packets_of-IsFor csn i zero (s ∷ shards) q e = (ground arith, omega arith)
packets_of-IsFor csn i (suc k) (s ∷ shards) q e =
    let (same, lt) = packets_of-IsFor csn (i + 1) k shards q e in (same, omega arith)

pub All-IsFor :
    (csn total : ℕ) (shards : List (List ℕ)) (ps : List PacketV2)
    → length shards ≡ total
    → csn * total + total < 2 ^ 64
    → All (IsOneOf (packets_of csn 0 shards)) ps
    → All (IsFor total csn) ps × AllFree (replicate total none) ps
All-IsFor csn total shards [] len small os = (tt, tt)
All-IsFor csn total shards (p ∷ ps) len small (o, os) =
    let (same, lt) = packets_of-IsFor csn 0 p.psn shards o.0 o.1 in
    let (fs, free) = All-IsFor csn total shards ps len small os in
    (
      (
        record {
          same = o.2.0 ∙ same;
          placed = record { psn_in = omega arith; no_wrap = rw (o.2.0 ∙ same) small };
        },
        fs,
      ),
      (get_elem?-replicate total p.psn none (omega arith), free),
    )

-- Different packets of an encoded chunk, as many as there are data shards or more, in the places of
-- its line: `restore` makes the chunk of them.
pub restore-place :
    (e : Coder) (csn next ok err : ℕ) (src : List ℕ) (packets ps : List PacketV2)
    → IsCoder e
    → csn * e.total + e.total < 2 ^ 64
    → Fits e src
    → encode e csn src ≡ some (next, packets)
    → All (IsOneOf packets) ps
    → Distinct ps
    → e.parts ≤ length ps
    → (chunk : Chunk) × (restore (restorer_of e ok err) (place ps (replicate e.total none))
        ≡ some (chunk ∷ [], restorer_of e (add64 ok 1) err))
      × (chunk.csn ≡ csn)
      × (chunk_bytes chunk ≡ src)
restore-place e csn next ok err src packets ps v small fits made os d enough =
    let hc : csn < 2 ^ 64 =
      omega (arith, le-mul csn e.total (omega (arith, v.some_parts, v.enough))) in
    let (shards, sent, count, sizes) = encode_lem e csn src v hc fits in
    let same : packets_of csn 0 shards ≡ packets = ground (arith, sent) in
    let (fs, places) = All-IsFor csn e.total shards ps count small (rw same os) in
    let total_is : length packets ≡ e.total =
      ap length (sym same) ∙ length-packets_of csn 0 shards ∙ count in
    let (arrives, n) =
      place-Arrives packets (replicate e.total none) ps (rw (← total_is) (Arrives-nothing packets))
        os d places in
    restore-encode e csn next ok err src packets (place ps (replicate e.total none)) v hc fits made
      arrives (omega (arith, received-nothing e.total))

-- With a Reed-Solomon code that behaves as documented and a chunk number whose places in the
-- decoder's table do not overflow: data that fits is encoded into packets. Let as many packets
-- with different numbers as there are data shards (two or more), each with the chunk number and
-- the data of the encoded packet of its number, come, in any order, to an assembler with the
-- encoder's numbers of shards that is ready for the chunk. Then the assembler sends one list of
-- packets, and `restore` makes of it one chunk with the same number and the same data.
pub restore-assemble_all :
    (e : Coder) (csn next ok err : ℕ) (src : List ℕ) (packets ps : List PacketV2) (a : Assembler)
    → IsCoder e
    → csn * e.total + e.total < 2 ^ 64
    → Fits e src
    → encode e csn src ≡ some (next, packets)
    → Ready a csn
    → a.total ≡ e.total
    → a.parts ≡ e.parts
    → 2 ≤ a.parts
    → All (IsOneOf packets) ps
    → Distinct ps
    → length ps ≡ a.parts
    → (got : List (Option PacketV2)) × (b : Assembler) × (chunk : Chunk) × (assemble_all a ps
        ≡ some (got ∷ [], b))
      × Done a b csn
      × (restore (restorer_of e ok err) got ≡ some (chunk ∷ [], restorer_of e (add64 ok 1) err))
      × (chunk.csn ≡ csn)
      × (chunk_bytes chunk ≡ src)
restore-assemble_all e csn next ok err src packets ps a v small fits made r same_total same_parts
      two os d full =
    let hc : csn < 2 ^ 64 =
      omega (arith, le-mul csn e.total (omega (arith, v.some_parts, v.enough))) in
    let (shards, sent, count, sizes) = encode_lem e csn src v hc fits in
    let same : packets_of csn 0 shards ≡ packets = ground (arith, sent) in
    let (fs, places) = All-IsFor csn e.total shards ps count small (rw same os) in
    let (b, collected, done) = assemble_all_lem a csn ps r (rw same_total fs) two full in
    let (chunk, restored, csn_same, bytes) =
      restore-place e csn next ok err src packets ps v small fits made os d (omega arith) in
    (
      place ps (replicate e.total none),
      b,
      chunk,
      collected ∙ ap (λ t. some (place ps (replicate t none) ∷ [], b)) same_total,
      done,
      restored,
      csn_same,
      bytes,
    )
