-- ===== src/Codec/Recovery/Stream/Turn.antt =====
-- Chunks that come to `dispatch` of src/codec/decoder.go one after the other.
use fec.Prelude.{
  true, ℕ, ◌+◌, ◌^◌, ◌<◌, ◌≡◌, refl, sym, ap, ◌∙◌, some, List, [], ◌∷◌, arith, length, add64, max,
  sub64, ◌==◌, ==_refl, ==_false, leb-false,
}
use fec.Codec.Chunk.{Chunk, chunk_bytes}
use fec.Codec.Decoder.{Dispatcher}
use fec.Codec.Decoder.Dispatch.{chunk_in, dispatch, accept, drain, dispatch_all}
use fec.Codec.Decoder.Run.{dispatch_queue}
use fec.Codec.Recovery.Stream.{data_from, InTurn}

-- The dispatcher after the awaited chunk, when no chunk waits.
dispatch-awaited :
    (d : Dispatcher) (chunk : Chunk)
    → d.awaiting ≡ chunk.csn
    → d.last + 1 ≡ chunk.csn
    → d.first ≡ d.last
    → dispatch d (chunk_in (some chunk))
      ≡ some (
        chunk_bytes chunk ∷ [],
        record d {
          first = max d.first chunk.csn;
          last = chunk.csn;
          awaiting = add64 d.awaiting 1;
          ok = add64 d.ok 1;
        },
      )
unfolding dispatch accept drain
dispatch-awaited d chunk awaits behind first =
    let level : (sub64 (max d.first chunk.csn) chunk.csn == 0) ≡ true =
      ap (λ n. n == 0) {x = sub64 (max d.first chunk.csn) chunk.csn} {y = 0} (omega arith) in
    rw
      (
        ==_false chunk.csn 0 (omega arith),
        leb-false chunk.csn d.last (omega arith),
        ap (λ n. chunk.csn == n) awaits ∙ ==_refl chunk.csn,
        level,
      )
      refl

module _ (src : ℕ → List ℕ) where
  -- Chunks that come in turn go out at once.
  pub dispatch_all-InTurn :
      (d : Dispatcher) (c : ℕ) (chunks : List Chunk)
      → d.awaiting ≡ c
      → d.last + 1 ≡ c
      → d.first ≡ d.last
      → c + length chunks < 2 ^ 64
      → InTurn src c chunks
      → (b : Dispatcher) × (dispatch_all d (dispatch_queue chunks)
          ≡ some (data_from src c (length chunks), b))
  unfolding dispatch_all data_from
  dispatch_all-InTurn d c [] awaits behind first small h = (d, refl)
  dispatch_all-InTurn d c (chunk ∷ chunks) awaits behind first small (number, bytes, h) =
      let next = record d {
        first = max d.first chunk.csn;
        last = chunk.csn;
        awaiting = add64 d.awaiting 1;
        ok = add64 d.ok 1;
      } in
      let now = dispatch-awaited d chunk (awaits ∙ sym number) (behind ∙ sym number) first in
      let (b, later) =
        dispatch_all-InTurn next (c + 1) chunks (omega arith) (omega arith) (omega arith)
          (omega arith) h in
      (
        b,
        rw (now, dispatch_all, later)
            (ap (λ x. some (x ∷ data_from src (c + 1) (length chunks), b)) bytes),
      )
