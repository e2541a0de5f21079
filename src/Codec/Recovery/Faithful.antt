-- ===== src/Codec/Recovery/Faithful.antt =====
-- What `restore` of src/codec/decoder.go makes of the lists that `assembly` sends, whatever packets
-- of encoded chunks come, in whatever order.
use mathlib.Core.Path.{subst}
use fec.Prelude.{
  ltb-false, ℕ, suc, ◌+◌, ◌*◌, ◌^◌, ◌≤◌, ◌<◌, ◌≡◌, refl, sym, ap, ◌∙◌, Option, none, some, List, [],
  ◌∷◌, ◌++◌, map, take_all, length-map, ap₂, arith, length, get_elem?, get_or, add64, All, dec_lt,
}
use fec.Codec.Packet.{PacketV2, packet_bytes}
use fec.Codec.ReedSolomon.{present}
use fec.Codec.Chunk.{Chunk, chunk_bytes}
use fec.Codec.Encoder.{Coder}
use fec.Codec.Encoder.Encode.{encode}
use fec.Codec.Decoder.{Assembler, Restorer}
use fec.Codec.Decoder.Assembly.{assemble_all}
use fec.Codec.Decoder.Assembly.Geometry.{IsPlaced, le-mul}
use fec.Codec.Decoder.Assembly.Separate.{OfOneChunk, Belongs}
use fec.Codec.Decoder.Assembly.Bounds.{All-append}
use fec.Codec.Decoder.Assembly.Fresh.{fresh_assembler, fresh_assembler-Separate}
use fec.Codec.Decoder.Assembly.Sequence.{assemble_all-OfOneChunk}
use fec.Codec.Decoder.Restore.{restore, restore_all}
use fec.Codec.Recovery.Packets.{packets_of, length-packets_of, Carries, Arrives, received}
use fec.Codec.Recovery.Restored.{restorer_of, IsCoder, Fits, encode_lem, restore-encode}
use fec.Codec.Recovery.Delivered.{IsOneOf, packets_of-IsFor}

-- Place by place, from the packets to what arrives of them.
Arrives-places :
    (ps : List PacketV2) (cells : List (Option PacketV2))
    → length cells ≡ length ps
    → ((i : ℕ) (q : PacketV2)
        → get_or cells i none ≡ some q
        → (p : PacketV2) × (get_elem? ps i ≡ some p) × Carries p q)
    → Arrives ps cells
Arrives-places [] [] len h = tt
Arrives-places [] (c ∷ cells) len h = absurd (omega arith)
Arrives-places (p ∷ ps) [] len h = absurd (omega arith)
Arrives-places (p ∷ ps) (none ∷ cells) len h =
    (tt, Arrives-places ps cells (omega arith) (λ i q e. h (suc i) q e))
Arrives-places (p ∷ ps) (some q ∷ cells) len h =
    let (x, e, c) = h 0 q refl in
    (
      subst (λ y. Carries y q) (sym (ap (λ o. elim o [ none ↦ p | some y ↦ y ]) e)) c,
      Arrives-places ps cells (omega arith) (λ i q e. h (suc i) q e),
    )

some_received :
    (cells : List (Option PacketV2))
    → 0 < received cells
    → (i : ℕ) × (q : PacketV2) × (get_or cells i none ≡ some q)
some_received [] h = absurd (omega arith)
some_received (none ∷ cells) h = let (i, q, e) = some_received cells h in (suc i, q, e)
some_received (some q ∷ cells) h = (0, q, refl)

-- A packet that the encoder `e` made of the data `src` of its chunk.
pub record IsSent (e : Coder) (src : ℕ → List ℕ) (q : PacketV2) : Type 0 where
  pub next : ℕ
  pub packets : List PacketV2
  pub encoded : encode e q.csn (src q.csn) ≡ some (next, packets)
  pub one_of : IsOneOf packets q
  pub no_wrap : q.csn * e.total + e.total < 2 ^ 64

-- Reconstruction from fewer shards than there are data shards is an error.
abbrev pub RefusesTooFew : Coder → Type 0
RefusesTooFew e =
    (got : List (List ℕ))
    → length got ≡ e.total
    → present got < e.parts
    → e.rs.reconstruct_data got ≡ none

-- The chunk has the data that was encoded under its number.
abbrev pub IsGenuine : (ℕ → List ℕ) → Chunk → Type 0
IsGenuine src chunk = chunk_bytes chunk ≡ src chunk.csn

present-le : (cells : List (Option PacketV2)) → present (map packet_bytes cells) ≤ received cells
unfolding packet_bytes
present-le [] = omega arith
present-le (none ∷ cells) = present-le cells
present-le (some p ∷ cells) = present_more p.payload (present-le cells)
  where
    present_more :
        (shard : List ℕ)
        → present (map packet_bytes cells) ≤ received cells
        → present (shard ∷ map packet_bytes cells) ≤ suc (received cells)
    present_more [] h = omega arith
    present_more (b ∷ bs) h = omega arith

module _ (e : Coder) (src : ℕ → List ℕ) (v : IsCoder e) (fits : (n : ℕ) → Fits e (src n)) where
  some_total : 0 < e.total
  some_total = omega (arith, v.some_parts, v.enough)

  IsSent-IsPlaced : (q : PacketV2) → IsSent e src q → IsPlaced e.total q
  IsSent-IsPlaced q s =
      let hc : q.csn < 2 ^ 64 = omega (arith, s.no_wrap, le-mul q.csn e.total some_total) in
      let (shards, sent, count, sizes) = encode_lem e q.csn (src q.csn) v hc (fits q.csn) in
      let same : packets_of q.csn 0 shards ≡ s.packets = ground (arith, sent, s.encoded) in
      let (p, at, c) = s.one_of in
      let (_, lt) =
        packets_of-IsFor q.csn 0 q.psn shards p (ap (λ ps. get_elem? ps q.psn) same ∙ at) in
      record { psn_in = omega (arith, lt, count); no_wrap = s.no_wrap }

  -- A packet of chunk `csn` carries the data of the encoded packet of its number.
  IsSent-IsOneOf :
      (csn next i : ℕ) (packets : List PacketV2) (q : PacketV2)
      → encode e csn (src csn) ≡ some (next, packets)
      → Belongs (IsSent e src) csn i q
      → (p : PacketV2) × (get_elem? packets i ≡ some p) × Carries p q
  IsSent-IsOneOf csn next i packets q made (same, number, s) =
      let (p, at, c) = s.one_of in
      let again : encode e csn (src csn) ≡ some (s.next, s.packets) =
        ap (λ n. encode e n (src n)) (sym same) ∙ s.encoded in
      let equal : s.packets ≡ packets = ground (arith, made, again) in
      (p, ap₂ (λ xs k. get_elem? xs k) (sym equal) (sym number) ∙ at, c)

  Arrives-OfOneChunk :
      (csn next : ℕ) (packets : List PacketV2) (cells : List (Option PacketV2))
      → encode e csn (src csn) ≡ some (next, packets)
      → length cells ≡ length packets
      → ((i : ℕ) (q : PacketV2) → get_or cells i none ≡ some q → Belongs (IsSent e src) csn i q)
      → Arrives packets cells
  Arrives-OfOneChunk csn next packets cells made len own =
      Arrives-places packets cells len
        (λ i q at. IsSent-IsOneOf csn next i packets q made (own i q at))

  -- What a list makes the restorer do: it goes on, and sends only chunks with the data that was
  -- encoded.
  abbrev pub Restores : ℕ → ℕ → Option (List Chunk × Restorer) → Type 0
  Restores ok err r =
      (chunks : List Chunk) × (ok' : ℕ) × (err' : ℕ) × (r ≡ some (chunks, restorer_of e ok' err'))
      × All (IsGenuine src) chunks

  restore-enough :
      (ok err : ℕ) (cells : List (Option PacketV2))
      → OfOneChunk (IsSent e src) e.total cells
      → e.parts ≤ received cells
      → Restores ok err (restore (restorer_of e ok err) cells)
  restore-enough ok err cells (csn, len, own) enough =
      let (i, q, at) = some_received cells (omega (arith, v.some_parts)) in
      let (same, number, s) = own i q at in
      let hc : csn < 2 ^ 64 = omega (arith, s.no_wrap, le-mul q.csn e.total some_total, same) in
      let (shards, sent, count, sizes) = encode_lem e csn (src csn) v hc (fits csn) in
      let (chunk, restored, numbered, bytes) =
        restore-encode e csn (add64 csn 1) ok err (src csn) (packets_of csn 0 shards) cells v hc
          (fits csn) sent
          (Arrives-OfOneChunk csn (add64 csn 1) (packets_of csn 0 shards) cells sent
            (len ∙ sym (length-packets_of csn 0 shards ∙ count)) own)
          enough in
      (chunk ∷ [], add64 ok 1, err, restored, (bytes ∙ ap src (sym numbered), tt))

  restore-too_few :
      (ok err : ℕ) (cells : List (Option PacketV2))
      → RefusesTooFew e
      → length cells ≡ e.total
      → received cells < e.parts
      → Restores ok err (restore (restorer_of e ok err) cells)
  unfolding restore
  restore-too_few ok err cells few len less = (
    [],
    ok,
    add64 err 1,
    rw
        (
          restore,
          ltb-false (length cells) e.total (omega arith),
          take_all e.total cells (omega arith),
          few (map packet_bytes cells) (length-map packet_bytes cells ∙ len)
              (omega (arith, present-le cells)),
        )
        refl,
    tt,
  )

  restore-Restores :
      (ok err : ℕ) (cells : List (Option PacketV2))
      → RefusesTooFew e
      → OfOneChunk (IsSent e src) e.total cells
      → Restores ok err (restore (restorer_of e ok err) cells)
  restore-Restores ok err cells few one = elim (dec_lt (received cells) e.parts) [
    | yes less ↦ restore-too_few ok err cells few one.1 less
    | no more ↦ restore-enough ok err cells one (omega (arith, more))
  ]

  restore_all-Restores :
      (ok err : ℕ) (queue : List (List (Option PacketV2)))
      → RefusesTooFew e
      → All (OfOneChunk (IsSent e src) e.total) queue
      → Restores ok err (restore_all (restorer_of e ok err) queue)
  unfolding restore_all
  restore_all-Restores ok err [] few h = ([], ok, err, refl, tt)
  restore_all-Restores ok err (cells ∷ queue) few (h, hs) =
      let (chunks, ok', err', now, good) = restore-Restores ok err cells few h in
      let (later, ok'', err'', rest, goods) = restore_all-Restores ok' err' queue few hs in
      (
        chunks ++ later,
        ok'',
        err'',
        rw (now, restore_all, rest) refl,
        All-append (IsGenuine src) chunks later good goods,
      )

  IsSent-all :
      (ps : List PacketV2)
      → All (IsSent e src) ps
      → All (λ q. IsPlaced e.total q × IsSent e src q) ps
  IsSent-all [] h = tt
  IsSent-all (p ∷ ps) (s, h) = ((IsSent-IsPlaced p s, s), IsSent-all ps h)

  -- With a Reed-Solomon code that behaves as documented, and whose reconstruction from too few
  -- shards is an error; `src n` is the data of chunk `n`, each fitting into a chunk. Let packets
  -- that were encoded from these chunks come to the assembler of a new decoder with at least one
  -- line: in any order, repeated or lost, of as many chunks as there are. Then neither the
  -- assembler nor `restore` panics, and every chunk that is restored has the data that was encoded
  -- under its number.
  pub restore_all-IsGenuine :
      (lines : ℕ) (ps : List PacketV2)
      → RefusesTooFew e
      → 0 < lines
      → lines * e.total < 2 ^ 64
      → All (IsSent e src) ps
      → (sent : List (List (Option PacketV2))) × (b : Assembler) × (chunks : List Chunk) × (ok : ℕ)
        × (err : ℕ) × (assemble_all (fresh_assembler e.parts e.total lines) ps ≡ some (sent, b))
        × (restore_all (restorer_of e 0 0) sent ≡ some (chunks, restorer_of e ok err))
        × All (IsGenuine src) chunks
  restore_all-IsGenuine lines ps few pos small h =
      let (sent, b, assembled, separate, ones) =
        assemble_all-OfOneChunk (IsSent e src) (fresh_assembler e.parts e.total lines) ps
          (fresh_assembler-Separate (IsSent e src) e.parts e.total lines (omega (arith, v.small))
            some_total pos small)
          (IsSent-all ps h) in
      let (chunks, ok, err, restored, good) = restore_all-Restores 0 0 sent few ones in
      (sent, b, chunks, ok, err, assembled, restored, good)
