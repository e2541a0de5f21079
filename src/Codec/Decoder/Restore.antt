-- ===== src/Codec/Decoder/Restore.antt =====
-- `restore` of src/codec/decoder.go. `none` is a panic.
use fec.Prelude.{
  true, false, if◌then◌else◌, ltb, length, Option, none, some, List, [], ◌∷◌, ◌++◌, map, take,
  add64,
}
use fec.Codec.Packet.{PacketV2, packet_bytes}
use fec.Codec.Chunk.{Chunk, unmarshal}
use fec.Codec.Decoder.{Restorer}

-- `new(Chunk)`.
abbrev pub empty_chunk : Chunk
empty_chunk = record { parts = 0; version = 0; kind = 0; csn = 0; size = 0; payload = [] }

-- The packets of one chunk, those that are missing being nil: what goes to `dispatchQueue`.
unfoldable pub restore : Restorer → List (Option PacketV2) → Option (List Chunk × Restorer)
restore r packets =
    if ltb (length packets) r.total
    then none
    else elim (r.rs.reconstruct_data (map packet_bytes (take r.total packets))) [
      | none ↦ some ([], record r { err = add64 r.err 1 })
      | some shards ↦ elim (unmarshal empty_chunk (take r.parts shards)) [
        | none ↦ none
        | some (false, chunk) ↦ some ([], record r { err = add64 r.err 1 })
        | some (true, chunk) ↦ some (chunk ∷ [], record r { ok = add64 r.ok 1 })
      ]
    ]

-- The goroutine over a sequence of lists.
unfoldable pub restore_all :
    Restorer → List (List (Option PacketV2)) → Option (List Chunk × Restorer)
restore_all r [] = some ([], r)
restore_all r (packets ∷ queue) = elim (restore r packets) [
  | none ↦ none
  | some (chunks, r') ↦ elim (restore_all r' queue) [
    | none ↦ none
    | some (later, s) ↦ some (chunks ++ later, s)
  ]
]
