-- ===== src/Codec/Recovery/Bytes.antt =====
-- A stream of bytes through all goroutines of src/codec/encoder.go and src/codec/decoder.go.
use mathlib.Core.Path.{subst}
use native.Mathlib.Nat.{mul_comm, div-add-mod, mod-lt}
use fec.Codec.Recovery.Made.{encoder_of}
use fec.Prelude.{
  ℕ, zero, suc, ◌+◌, ◌-◌, ◌*◌, ◌/◌, ◌%◌, ◌^◌, ◌≤◌, ◌<◌, ◌≡◌, refl, sym, ap, ap₂, ◌∙◌, Option, none,
  some, List, [], ◌∷◌, ◌++◌, append_assoc, map, arith, length, length-append, length-replicate,
  replicate, get_or, take, drop, take-append-drop, length-drop, All, ==_false, ltb-false, mul64,
  sub64, ◌==◌,
}
use fec.Codec.ReedSolomon.{ReedSolomon}
use fec.Codec.Packet.{PacketV2, packet_data_size, marshal}
use fec.Codec.Chunk.{chunk_header_size}
use fec.Codec.Encoder.{Aggregator, Coder, Encoder, made, incoming_size, new_encoder}
use fec.Codec.Encoder
use fec.Codec.Encoder.Aggregate.{Event, aggregate_all}
use fec.Codec.Encoder.Aggregate.Stream.{flat, flat-append, brought, IsAtMost, aggregate_all_lem}
use fec.Codec.Encoder.Aggregate.Count.{aggregate_all-count}
use fec.Codec.Encoder.Run.{encode_all}
use fec.Codec.Encoder.Run as EncoderRun
use fec.Codec.Decoder.{Decoder, new_decoder}
use fec.Codec.Decoder.Run as DecoderRun
use fec.Codec.Decoder.Assembly.Geometry.{le-mul}
use fec.Codec.Recovery.Restored.{IsCoder, Fits}
use fec.Codec.Recovery.Stream.{data_from}
use fec.Codec.Recovery.Spread.Lines.{times_le}
use fec.Codec.Recovery.Spread.Sent.{AreData, chunks_from, encode_all-chunks_from}
use fec.Codec.Recovery.Spread.Dispatched.{IsEmpty, rounds_from, dispatch_all-batches}
use fec.Codec.Recovery.Spread.Lossless.{
  all_heard, length-all_heard, all_heard-AreSent, sent-all_heard,
}
use fec.Codec.Recovery.Spread.Delivery.{run-sent}
pub mod Delivery

-- Chunk `n` is number `n - 1` of the list.
abbrev pub numbered : List (List ℕ) → ℕ → List ℕ
numbered chunks n = get_or chunks (n - 1) []

All-get_or :
    (P : List ℕ → Type 0) (xs : List (List ℕ)) (i : ℕ) → P [] → All P xs → P (get_or xs i [])
All-get_or P [] i z h = z
All-get_or P (x ∷ xs) zero z (hx, h) = hx
All-get_or P (x ∷ xs) (suc i) z (hx, h) = All-get_or P xs i z h

pub AreData-eq :
    (e : Coder) (src : ℕ → List ℕ) (xs : List (List ℕ)) (c : ℕ)
    → ((i : ℕ) → i < length xs → src (c + i) ≡ get_or xs i [])
    → AreData e src c xs
AreData-eq e src [] c h = tt
AreData-eq e src (x ∷ xs) c h = (
  ap src {x = c} {y = c + 0} (omega arith) ∙ h 0 (omega arith),
  AreData-eq e src xs (c + 1)
      (λ i lt. ap src {x = c + 1 + i} {y = c + suc i} (omega arith) ∙ h (suc i) (omega arith)),
)

pub data_from-take :
    (src : ℕ → List ℕ) (xs : List (List ℕ)) (c m : ℕ)
    → m ≤ length xs
    → ((i : ℕ) → i < length xs → src (c + i) ≡ get_or xs i [])
    → data_from src c m ≡ take m xs
unfolding data_from take
data_from-take src xs c zero le h = refl
data_from-take src [] c (suc m) le h = absurd (omega arith)
data_from-take src (x ∷ xs) c (suc m) le h =
    ap₂ (λ y ys. y ∷ ys) (ap src {x = c} {y = c + 0} (omega arith) ∙ h 0 (omega arith))
      (data_from-take src xs (c + 1) m (omega arith)
        (λ i lt. ap src {x = c + 1 + i} {y = c + suc i} (omega arith) ∙ h (suc i) (omega arith)))

All-drop : (P : List ℕ → Type 0) (n : ℕ) (xs : List (List ℕ)) → All P xs → All P (drop n xs)
unfolding drop
All-drop P zero xs h = h
All-drop P (suc n) [] h = tt
All-drop P (suc n) (x ∷ xs) (hx, h) = All-drop P n xs h

suc_times : (n m : ℕ) → suc n * m ≡ m + n * m
suc_times n m = grind arith

flat-le :
    (cap : ℕ) (xs : List (List ℕ)) → All (IsAtMost cap) xs → length (flat xs) ≤ length xs * cap
flat-le cap [] h = omega arith
flat-le cap (x ∷ xs) (hx, h) =
    omega (arith, hx, flat-le cap xs h, length-append x (flat xs), suc_times (length xs) cap)

pub at-numbered : (chunks : List (List ℕ)) (i : ℕ) → numbered chunks (1 + i) ≡ get_or chunks i []
at-numbered chunks i = ap (λ k. get_or chunks k []) {x = 1 + i - 1} {y = i} (omega arith)

pub incoming_size-eq :
    (parts : ℕ)
    → 0 < parts
    → parts * packet_data_size < 2 ^ 63
    → incoming_size parts + chunk_header_size ≡ parts * packet_data_size
unfolding incoming_size
incoming_size-eq parts pos small = omega arith

-- The sizes of an encoder that interleaves `n` chunks do not overflow.
abbrev pub HasSizes : Coder → ℕ → Type 0
HasSizes e n = n * (n * e.total) + n < 2 ^ 64

pub encoder_of-IsEmpty :
    (e : Coder) (n : ℕ)
    → 0 < e.total
    → 0 < n
    → HasSizes e n
    → IsEmpty (encoder_of e n).dispatcher e.total
encoder_of-IsEmpty e n some_packets pos sizes = record {
  per_chunk_is = refl;
  count_is = refl;
  places =
      length-replicate {A = Option PacketV2} (mul64 e.total n) none
      ∙ omega (arith, sizes, le-mul (n * e.total) n pos, mul_comm n e.total);
  some_chunks = pos;
  some_packets = some_packets;
  sizes = sizes;
}

pub IsAtMost-Fits :
    (e : Coder) (chunks : List (List ℕ))
    → 0 < e.parts
    → e.parts * packet_data_size < 2 ^ 63
    → All (IsAtMost (incoming_size e.parts)) chunks
    → (i : ℕ) → Fits e (numbered chunks i)
IsAtMost-Fits e chunks pos small h i =
    let size = incoming_size-eq e.parts pos small in
    omega
      (arith, size, All-get_or (IsAtMost (incoming_size e.parts)) chunks (i - 1) (omega arith) h)

-- How many of these chunks are in whole batches of `n`.
abbrev pub given : ℕ → List (List ℕ) → ℕ
given n chunks = n * (length chunks / n)

-- The bytes of the chunks of the batch that is not whole, and of the chunk that is not whole.
abbrev pub rest_of : ℕ → List (List ℕ) → List ℕ → List ℕ
rest_of n chunks buf = flat (drop (given n chunks) chunks) ++ buf

pub given-rest_of :
    (n : ℕ) (chunks : List (List ℕ)) (buf src : List ℕ)
    → flat chunks ++ buf ≡ src
    → flat (take (given n chunks) chunks) ++ rest_of n chunks buf ≡ src
given-rest_of n chunks buf src whole =
    let first = take (given n chunks) chunks in
    let later = drop (given n chunks) chunks in
    sym (append_assoc (flat first) (flat later) buf)
    ∙ ap (λ xs. xs ++ buf)
        (sym (flat-append first later) ∙ ap flat (take-append-drop (given n chunks) chunks))
    ∙ whole

pub length-rest_of :
    (cap n : ℕ) (chunks : List (List ℕ)) (buf : List ℕ)
    → 0 < n
    → All (IsAtMost cap) chunks
    → length buf < cap
    → length (rest_of n chunks buf) < n * cap
length-rest_of cap n chunks buf pos h room =
    let later = drop (given n chunks) chunks in
    let left : length later ≡ length chunks % n =
      length-drop (given n chunks) chunks ∙ omega (arith, div-add-mod (length chunks) n) in
    omega (
      arith,
      length-append (flat later) buf,
      flat-le cap later (All-drop (IsAtMost cap) (given n chunks) chunks h),
      room,
      times_le (suc (length later)) n cap (omega (arith, left, mod-lt (length chunks) {m = n} pos)),
      suc_times (length later) cap,
    )
