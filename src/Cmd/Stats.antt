-- ===== src/Cmd/Stats.antt =====
-- cmd/stats/main.go: a writer of numbered frames with a time, and a reader that notes what comes.
-- `log.Fatalln` ends the program. Opening, flags and the file of the notes are input and output.
use mathlib.Core.Path.{subst}
use fec.Prelude.{
  sym, take_all, ℕ, ◌+◌, ◌-◌, ◌^◌, ◌≤◌, ◌<◌, ◌≡◌, refl, ap, ap₂, ◌∙◌, Bool, true, false, not,
  Option, none, some, List, [], ◌∷◌, ◌++◌, map, arith, if◌then◌else◌, ltb, ltb-false, ◌==◌, length,
  length-append, length-le_bytes, take, drop, slice, copy, length-copy, take-append, drop-append,
  le_bytes, le_value, le_value-le_bytes, add64, All, append_assoc,
}
use fec.Io.{Got, got, read_error, Wrote, wrote, write_error}
use fec.Client.Connect.{Opened, Connected, no_server, not_udp_server, shake, opened}

-- `connect`: how the connection opens, what it answers to the write, and what comes.
unfoldable pub stats_connect : Opened → Wrote → Got → List ℕ → Connected
stats_connect server written reply peer_id =
    opened server no_server not_udp_server (shake peer_id written reply)

-- The number, the time and random bytes.
unfoldable pub frame : ℕ → ℕ → List ℕ → List ℕ
frame i now random = le_bytes 8 i ++ (le_bytes 8 now ++ random)

-- A round of a writer: the time, what `rand.Read` gives, and what the connection answers.
pub record Round : Type 0 where
  pub now : ℕ
  pub random : Option (List ℕ)
  pub answer : Wrote

-- What a writer wrote, and whether it goes on.
abbrev pub Frames : Type 0
Frames = List (List ℕ) × Bool

-- What the answer to a write means, of which `enough` reads the number of bytes.
unfoldable pub accepted : (ℕ → Bool) → Wrote → Bool
accepted enough (write_error n) = false
accepted enough (wrote n) = enough n

-- The loop of a writer of frames of `size` bytes, from frame `i` on.
unfoldable pub write_frames : ℕ → (ℕ → Bool) → ℕ → List Round → Frames
write_frames size enough i [] = ([], true)
write_frames size enough i (r ∷ rounds) =
    let (later, goes) = write_frames size enough (add64 i 1) rounds in
    elim (r.random) [
      | none ↦ ([], false)
      | some random ↦
          if not (length random == size - 16)
          then ([], false)
          else if accepted enough r.answer
          then (frame i r.now random ∷ later, goes)
          else (frame i r.now random ∷ [], false)
    ]

-- The modes `writer`, whose frames go to the connection, and `writer-enc`, whose frames go to the
-- writer of `Secure`.
unfoldable pub write_plain : List Round → Frames
write_plain = write_frames 1024 (λ n. n == 1024) 0

unfoldable pub write_encrypted : List Round → Frames
write_encrypted = write_frames 996 (λ n. not (ltb n 996)) 0

-- A line of the notes.
pub record Row : Type 0 where
  pub id : ℕ
  pub timestamp : ℕ
  pub received : ℕ

-- A round of the reader, whose buffer keeps what came before behind what comes now; `none` ends the
-- program.
unfoldable pub read_row : List ℕ → Got → ℕ → Option (Row × List ℕ)
read_row buf (read_error n) now = none
read_row buf (got input) now =
    let b = copy buf input in
    if ltb (length input) 8
    then none
    else some (
      record { id = le_value (take 8 b); timestamp = le_value (slice b 8 16); received = now },
      b,
    )

-- The loop, over what comes and when: the notes, and whether it goes on.
unfoldable pub read_rows : List ℕ → List (Got × ℕ) → List Row × Bool
read_rows buf [] = ([], true)
read_rows buf ((input, now) ∷ inputs) = elim (read_row buf input now) [
  | none ↦ ([], false)
  | some (row, b) ↦ let (rows, goes) = read_rows b inputs in (row ∷ rows, goes)
]

-- A frame that a writer made, and when it comes.
pub record Arrival : Type 0 where
  pub i : ℕ
  pub now : ℕ
  pub random : List ℕ
  pub at : ℕ

-- The number and the time are uint64, and the frame is no longer than the buffer.
pub record IsArrival (room : ℕ) (a : Arrival) : Type 0 where
  pub number : a.i < 2 ^ 64
  pub time : a.now < 2 ^ 64
  pub fits : 16 + length a.random ≤ room

abbrev pub comes : Arrival → Got × ℕ
comes a = (got (frame a.i a.now a.random), a.at)

abbrev pub noted : Arrival → Row
noted a = record { id = a.i; timestamp = a.now; received = a.at }

length-frame : (i now : ℕ) (random : List ℕ) → length (frame i now random) ≡ 16 + length random
unfolding frame
length-frame i now random = omega (
  arith,
  length-append (le_bytes 8 i) (le_bytes 8 now ++ random),
  length-append (le_bytes 8 now) random,
  length-le_bytes 8 i,
  length-le_bytes 8 now,
)

-- The buffer behind a frame.
copy-frame :
    (buf : List ℕ) (i now : ℕ) (random : List ℕ)
    → 16 + length random ≤ length buf
    → copy buf (frame i now random)
      ≡ le_bytes 8 i ++ (le_bytes 8 now ++ (random ++ drop (16 + length random) buf))
unfolding copy frame
copy-frame buf i now random h =
    let len = length-frame i now random in
    rw (take_all (length buf) (frame i now random) (omega (arith, len)), len)
      (append_assoc (le_bytes 8 i) (le_bytes 8 now ++ random) (drop (16 + length random) buf)
        ∙ ap (λ xs. le_bytes 8 i ++ xs)
            (append_assoc (le_bytes 8 now) random (drop (16 + length random) buf)))

read_row-frame :
    (buf : List ℕ) (a : Arrival)
    → IsArrival (length buf) a
    → read_row buf (got (frame a.i a.now a.random)) a.at
      ≡ some (noted a, copy buf (frame a.i a.now a.random))
unfolding read_row slice
read_row-frame buf a v =
    let tail = a.random ++ drop (16 + length a.random) buf in
    let long =
      ltb-false (length (frame a.i a.now a.random)) 8
        (omega (arith, length-frame a.i a.now a.random)) in
    let id : le_value (take 8 (copy buf (frame a.i a.now a.random))) ≡ a.i =
      ap (λ b. le_value (take 8 b)) (copy-frame buf a.i a.now a.random v.fits)
      ∙ ap le_value
          (take-append 8 (le_bytes 8 a.i) (le_bytes 8 a.now ++ tail) (length-le_bytes 8 a.i))
      ∙ le_value-le_bytes 8 a.i (omega (arith, v.number)) in
    let timestamp : le_value (slice (copy buf (frame a.i a.now a.random)) 8 16) ≡ a.now =
      ap (λ b. le_value (slice b 8 16)) (copy-frame buf a.i a.now a.random v.fits)
      ∙ ap (λ b. le_value (take 8 b))
          (drop-append 8 (le_bytes 8 a.i) (le_bytes 8 a.now ++ tail) (length-le_bytes 8 a.i))
      ∙ ap le_value (take-append 8 (le_bytes 8 a.now) tail (length-le_bytes 8 a.now))
      ∙ le_value-le_bytes 8 a.now (omega (arith, v.time)) in
    let row : record {
      id = le_value (take 8 (copy buf (frame a.i a.now a.random)));
      timestamp = le_value (slice (copy buf (frame a.i a.now a.random)) 8 16);
      received = a.at;
    }
        ≡ noted a =
      ap₂ (λ x y. record { id = x; timestamp = y; received = a.at }) id timestamp in
    rw (read_row, long) (ap (λ r. some (r, copy buf (frame a.i a.now a.random))) row)

-- Frames of a writer come to the reader, whichever of them, in whatever order and as often as they
-- do, none longer than the reader's buffer: for each of them, in turn, the reader notes the number
-- and the time that the writer put into it, and when it came, and it goes on.
pub read_rows-frame :
    (buf : List ℕ) (arrivals : List Arrival)
    → All (IsArrival (length buf)) arrivals
    → read_rows buf (map comes arrivals) ≡ (map noted arrivals, true)
unfolding read_rows
read_rows-frame buf [] h = refl
read_rows-frame buf (a ∷ arrivals) (v, h) =
    let b = copy buf (frame a.i a.now a.random) in
    let same : length b ≡ length buf = length-copy buf (frame a.i a.now a.random) in
    let ih = read_rows-frame b arrivals (subst (λ n. All (IsArrival n) arrivals) (sym same) h) in
    rw (read_row-frame buf a v, read_rows, ih) refl
