-- ===== src/Codec/Decoder/Run.antt =====
-- The goroutines that `Decoder.Decode` of src/codec/decoder.go starts, one behind the other: each
-- reads the queue that the one before it fills. `none` is a panic of one of them.
use fec.Prelude.{ℕ, Option, none, some, List, map}
use fec.Codec.Chunk.{Chunk}
use fec.Codec.Decoder.{Decoder}
use fec.Codec.Decoder.Decode.{decode_all}
use fec.Codec.Decoder.Assembly.{assemble_all}
use fec.Codec.Decoder.Restore.{restore_all}
use fec.Codec.Decoder.Dispatch.{Event, chunk_in, dispatch_all}

abbrev pub dispatch_queue : List Chunk → List Event
dispatch_queue = map (λ chunk. chunk_in (some chunk))

-- From the datagrams of `argumentQueue` to the data of `resultQueue`.
unfoldable pub run : (List ℕ → List ℕ) → Decoder → List (List ℕ) → Option (List (List ℕ) × Decoder)
run sha1 d inputs = elim (assemble_all d.assembler (decode_all sha1 inputs)) [
  | none ↦ none
  | some (lists, assembler) ↦ elim (restore_all d.restorer lists) [
    | none ↦ none
    | some (chunks, restorer) ↦ elim (dispatch_all d.dispatcher (dispatch_queue chunks)) [
      | none ↦ none
      | some (sent, dispatcher) ↦
          some
            (sent, record { assembler = assembler; restorer = restorer; dispatcher = dispatcher })
    ]
  ]
]
