-- ===== src/Client/Run.antt =====
-- `Run` of src/client.go: the client connects, gets its writer and its reader, opens a file for
-- statistics and starts its goroutines.
use mathlib.Core.Path.{subst}
use fec.Prelude.{
  ℕ, zero, suc, ◌+◌, ◌≡◌, ◌≢◌, ◌↔◌, ◌⊎◌, refl, sym, ap, ◌∙◌, Bool, true, false, Option, none, some,
  List, [], ◌∷◌, ◌++◌, arith, length, replicate, Option-cases, inl, inr, none≢some, some-injective,
}
use fec.Client.Connect.{Sockets, ConnectError, Connected, connect}
use fec.Client.Connect
use fec.Client.Handshake.{IsAnswered, connect_iff}

-- How `Run` fails.
pub data RunError : Type 0 where
  not_connected : ConnectError → RunError
  no_writer no_reader : RunError

-- What `Run` has started: the writer, the reader, and the number of the file. Or it still looks for
-- a file that can be created.
pub data Started (W R : Type 0) : Type 0 where
  started : W → R → ℕ → Started W R
  failed : RunError → Started W R
  waits : Started W R

-- `os.Create` of one file after the other, by whether it succeeds: the first that is created.
unfoldable pub create_stats : ℕ → List Bool → Option ℕ
create_stats i [] = none
create_stats i (true ∷ creates) = some i
create_stats i (false ∷ creates) = create_stats (i + 1) creates

module _ {W R : Type 0} where
  unfoldable pub with_stats : W → R → Option ℕ → Started W R
  with_stats w r none = waits
  with_stats w r (some i) = started w r i

  -- Behind `connect`: what `handler.Writer` and `handler.Reader` give, and the files.
  unfoldable pub start : Option W → Option R → List Bool → Started W R
  start none reader creates = failed no_writer
  start (some w) none creates = failed no_reader
  start (some w) (some r) creates = with_stats w r (create_stats 0 creates)

  unfoldable pub run : Sockets → List ℕ → Option W → Option R → List Bool → Started W R
  run s peer_id writer reader creates = elim (connect s peer_id) [
    | Connect.failed e ↦ failed (not_connected e)
    | Connect.connected ↦ start writer reader creates
  ]

-- The first `i` files are not created, and the next is.
abbrev pub IsFirst : ℕ → List Bool → Type 0
IsFirst i creates = (later : List Bool) × (creates ≡ replicate i false ++ (true ∷ later))

create_stats-replicate :
    (k i : ℕ) (later : List Bool)
    → create_stats k (replicate i false ++ (true ∷ later)) ≡ some (k + i)
unfolding create_stats replicate
create_stats-replicate k zero later = ap some (omega arith)
create_stats-replicate k (suc i) later =
    create_stats-replicate (k + 1) i later ∙ ap some (omega arith)

create_stats-IsFirst :
    (k : ℕ) (creates : List Bool) (n : ℕ)
    → create_stats k creates ≡ some n
    → (i : ℕ) × (n ≡ k + i) × IsFirst i creates
unfolding create_stats replicate
create_stats-IsFirst k [] n h = absurd (none≢some n h)
create_stats-IsFirst k (true ∷ creates) n h =
    (0, omega (arith, some-injective k n h), (creates, refl))
create_stats-IsFirst k (false ∷ creates) n h =
    let (i, e, (later, split)) = create_stats-IsFirst (k + 1) creates n h in
    (suc i, omega (arith, e), (later, ap (λ xs. false ∷ xs) split))

Connected-cases :
    (c : Connected) → (c ≡ Connect.connected) ⊎ ((e : ConnectError) × (c ≡ Connect.failed e))
Connected-cases Connect.connected = inl refl
Connected-cases (Connect.failed e) = inr (e, refl)

module _ {W R : Type 0} where
  -- What it takes for `Run` to start the goroutines.
  pub record IsStarted (s : Sockets) (peer_id : List ℕ) (writer : Option W) (reader : Option R)
      (creates : List Bool) (w : W) (r : R) (i : ℕ) : Type 0 where
    pub answered : IsAnswered s peer_id
    pub has_writer : writer ≡ some w
    pub has_reader : reader ≡ some r
    pub first : IsFirst i creates

  unfoldable writer_of : W → Started W R → W
  writer_of w (started x y i) = x
  writer_of w (failed e) = w
  writer_of w waits = w

  unfoldable reader_of : R → Started W R → R
  reader_of r (started x y i) = y
  reader_of r (failed e) = r
  reader_of r waits = r

  unfoldable number_of : ℕ → Started W R → ℕ
  number_of n (started x y i) = i
  number_of n (failed e) = n
  number_of n waits = n

  failed≢started : (e : RunError) (w : W) (r : R) (i : ℕ) → failed e ≢ started w r i
  failed≢started e w r i h = cc

  waits≢started : (w : W) (r : R) (i : ℕ) → waits ≢ started w r i
  waits≢started w r i h = cc

  start_parts :
      (writer : Option W) (reader : Option R) (creates : List Bool) (w : W) (r : R) (i : ℕ)
      → start writer reader creates ≡ started w r i
      → (writer ≡ some w) × (reader ≡ some r) × IsFirst i creates
  unfolding start writer_of reader_of number_of with_stats
  start_parts none reader creates w r i h = cc
  start_parts (some x) none creates w r i h = cc
  start_parts (some x) (some y) creates w r i h = elim (Option-cases (create_stats 0 creates)) [
    | inl e ↦ absurd (waits≢started w r i (sym (rw (start, e, with_stats) refl) ∙ h))
    | inr (n, e) ↦
        let got : started x y n ≡ started w r i = sym (rw (start, e, with_stats) refl) ∙ h in
        let (j, same, first) = create_stats-IsFirst 0 creates n e in
        let number : j ≡ i = omega (arith, same, ap (number_of 0) got) in
        (
          ap (λ t. some (writer_of x t)) got,
          ap (λ t. some (reader_of y t)) got,
          subst (λ m. IsFirst m creates) number first,
        )
  ]

  run-IsStarted :
      (s : Sockets) (peer_id : List ℕ) (writer : Option W) (reader : Option R) (creates : List Bool)
      (w : W) (r : R) (i : ℕ)
      → length peer_id ≡ 16
      → run s peer_id writer reader creates ≡ started w r i
      → IsStarted s peer_id writer reader creates w r i
  unfolding run
  run-IsStarted s peer_id writer reader creates w r i len h =
      elim (Connected-cases (connect s peer_id)) [
        | inl e ↦
            let (has_w, has_r, first) =
              start_parts writer reader creates w r i (sym (rw (run, e) refl) ∙ h) in
            record {
              answered = (connect_iff s peer_id len).0 e;
              has_writer = has_w;
              has_reader = has_r;
              first = first;
            }
        | inr (c, e) ↦ absurd (failed≢started (not_connected c) w r i (sym (rw (run, e) refl) ∙ h))
      ]

  IsStarted-run :
      (s : Sockets) (peer_id : List ℕ) (writer : Option W) (reader : Option R) (creates : List Bool)
      (w : W) (r : R) (i : ℕ)
      → length peer_id ≡ 16
      → IsStarted s peer_id writer reader creates w r i
      → run s peer_id writer reader creates ≡ started w r i
  unfolding run start with_stats
  IsStarted-run s peer_id writer reader creates w r i len h =
      let (later, split) = h.first in
      rw
        (
          run,
          (connect_iff s peer_id len).1 h.answered,
          h.has_writer,
          h.has_reader,
          start,
          split,
          create_stats-replicate 0 i later,
          with_stats,
        )
        (ap (started w r) (omega arith))

  -- For an id of 16 bytes: `Run` starts the goroutines exactly if the three sockets open as UDP
  -- connections, the handshake of 32 bytes is written whole, what the server sends begins with it,
  -- the handler gives a writer and a reader, and some file for statistics can be created. The
  -- client then has this writer and this reader, and the first file that could be created.
  pub run_iff :
      (s : Sockets) (peer_id : List ℕ) (writer : Option W) (reader : Option R) (creates : List Bool)
      (w : W) (r : R) (i : ℕ)
      → length peer_id ≡ 16
      → (run s peer_id writer reader creates ≡ started w r i)
        ↔ IsStarted s peer_id writer reader creates w r i
  run_iff s peer_id writer reader creates w r i len = (
    run-IsStarted s peer_id writer reader creates w r i len,
    IsStarted-run s peer_id writer reader creates w r i len,
  )
