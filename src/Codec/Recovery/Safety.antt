-- ===== src/Codec/Recovery/Safety.antt =====
-- The whole decoder of src/codec/decoder.go, whatever the network does to the encoder's datagrams.
use mathlib.Core.Path.{subst}
use fec.Prelude.{
  ℕ, ◌+◌, ◌*◌, ◌^◌, ◌<◌, ◌≤◌, ◌≡◌, ◌⊎◌, inl, inr, refl, sym, ap, ◌∙◌, Option, some, List, [], ◌∷◌,
  arith, length, get_elem?, All,
}
use fec.Codec.Packet.{PacketV2, marshal}
use fec.Codec.ReedSolomon.{ReedSolomon}
use fec.Codec.Chunk.{Chunk}
use fec.Codec.Encoder.{Coder, made}
use fec.Codec.Encoder.Encode.{encode}
use fec.Codec.Decoder.{Decoder, new_decoder}
use fec.Codec.Decoder.Decode.{decode, decode_all}
use fec.Codec.Decoder.Assembly.Bounds.{All-append}
use fec.Codec.Decoder.Assembly.Geometry.{le-mul}
use fec.Codec.Decoder.Dispatch.Genuine.{GoodEvent, IsFrom, dispatch_all-IsFrom}
use fec.Codec.Decoder.Run.{run, dispatch_queue}
use fec.Codec.Recovery.Restored.{restorer_of, IsCoder, Fits}
use fec.Codec.Recovery.Made.{decoder_of, fresh_dispatcher_of, new_decoder-decoder_of}
use fec.Codec.Recovery.Wire.{Decodes, decode-encode, hashed, All-get_elem?}
use fec.Codec.Recovery.Faithful.{IsSent, IsGenuine, RefusesTooFew, restore_all-IsGenuine}

-- The data is that of one of the chunks.
abbrev pub IsData : (ℕ → List ℕ) → List ℕ → Type 0
IsData src bytes = (n : ℕ) × (bytes ≡ src n)

module _ (sha1 : List ℕ → List ℕ) (sha1_len : (x : List ℕ) → length (sha1 x) ≡ 20) where
  -- A datagram that the encoder `e` made of the data of one of the chunks.
  pub record IsDatagram (e : Coder) (src : ℕ → List ℕ) (datagram : List ℕ) : Type 0 where
    pub packet : PacketV2
    pub next : ℕ
    pub packets : List PacketV2
    pub encoded : encode e packet.csn (src packet.csn) ≡ some (next, packets)
    pub among : get_elem? packets packet.psn ≡ some packet
    pub no_wrap : packet.csn * e.total + e.total < 2 ^ 64
    pub wire : datagram ≡ marshal sha1 packet

  -- A datagram of the encoder, or one that `decode` drops.
  abbrev pub IsInput : Coder → (ℕ → List ℕ) → List ℕ → Type 0
  IsInput e src datagram = IsDatagram e src datagram ⊎ (decode sha1 datagram ≡ [])

  module _ (e : Coder) (src : ℕ → List ℕ) (v : IsCoder e) (fits : (n : ℕ) → Fits e (src n)) where
    decode-IsDatagram :
        (datagram : List ℕ) → IsDatagram e src datagram → All (IsSent e src) (decode sha1 datagram)
    decode-IsDatagram datagram d =
        let p = d.packet in
        let hc : p.csn < 2 ^ 64 =
          omega (arith, d.no_wrap, le-mul p.csn e.total (omega (arith, v.some_parts, v.enough))) in
        let decoded : decode sha1 (marshal sha1 p) ≡ hashed sha1 sha1_len p ∷ [] =
          All-get_elem? sha1 sha1_len (Decodes sha1 sha1_len) d.packets p.psn p
            (decode-encode sha1 sha1_len e p.csn d.next (src p.csn) d.packets v hc (fits p.csn)
              d.encoded)
            d.among in
        let sent : IsSent e src (hashed sha1 sha1_len p) = record {
          next = d.next;
          packets = d.packets;
          encoded = d.encoded;
          one_of = (p, d.among, (refl, refl));
          no_wrap = d.no_wrap;
        } in
        subst (λ ps. All (IsSent e src) ps) (sym (ap (decode sha1) d.wire ∙ decoded)) (sent, tt)

    decode_all-IsInput :
        (datagrams : List (List ℕ))
        → All (IsInput e src) datagrams
        → All (IsSent e src) (decode_all sha1 datagrams)
    unfolding decode_all
    decode_all-IsInput [] h = tt
    decode_all-IsInput (d ∷ datagrams) (inl ours, h) =
        All-append (IsSent e src) (decode sha1 d) (decode_all sha1 datagrams)
          (decode-IsDatagram d ours) (decode_all-IsInput datagrams h)
    decode_all-IsInput (d ∷ datagrams) (inr dropped, h) =
        rw dropped (decode_all-IsInput datagrams h)

    dispatch_queue-GoodEvent :
        (chunks : List Chunk)
        → All (IsGenuine src) chunks
        → All (GoodEvent (IsGenuine src)) (dispatch_queue chunks)
    dispatch_queue-GoodEvent [] h = tt
    dispatch_queue-GoodEvent (c ∷ chunks) (g, h) = (g, dispatch_queue-GoodEvent chunks h)

    IsFrom-IsData :
        (sent : List (List ℕ)) → All (IsFrom (IsGenuine src)) sent → All (IsData src) sent
    IsFrom-IsData [] h = tt
    IsFrom-IsData (bytes ∷ sent) ((chunk, same, good), h) =
        ((chunk.csn, sym same ∙ good), IsFrom-IsData sent h)

    -- With a Reed-Solomon code that behaves as documented, and whose reconstruction from too few
    -- shards is an error; `src n` is the data of chunk `n`, each fitting into a chunk. A decoder
    -- for the encoder's numbers of shards, with at least two shards, a line and a place, is made.
    -- Then it gets datagrams: in any order, repeated or lost, of any of the encoded chunks (with
    -- chunk numbers whose places do not overflow), and mixed with any others that `decode` drops.
    -- None of its goroutines panics, and all the data that comes out is the data of some chunk,
    -- unharmed.
    pub run-IsData :
        (new_rs : ℕ → ℕ → Option ReedSolomon) (lines size : ℕ) (d : Decoder)
        (datagrams : List (List ℕ))
        → RefusesTooFew e
        → new_rs e.parts e.total ≡ some e.rs
        → 2 ≤ e.total
        → 0 < lines
        → lines * e.total < 2 ^ 64
        → 0 < size
        → new_decoder new_rs e.parts e.total lines size ≡ made d
        → All (IsInput e src) datagrams
        → (sent : List (List ℕ)) × (b : Decoder) × (run sha1 d datagrams ≡ some (sent, b))
          × All (IsData src) sent
    unfolding run
    run-IsData new_rs lines size d datagrams few code two pos small places new inputs =
        let is : decoder_of e lines size ≡ d =
          new_decoder-decoder_of new_rs e lines size d v.some_parts two code new in
        let (lists, assembler, chunks, ok, err, assembled, restored, genuine) =
          restore_all-IsGenuine e src v fits lines (decode_all sha1 datagrams) few pos small
            (decode_all-IsInput datagrams inputs) in
        let (sent, dispatcher, dispatched, from) =
          dispatch_all-IsFrom (IsGenuine src) (fresh_dispatcher_of size) (dispatch_queue chunks)
            places refl (dispatch_queue-GoodEvent chunks genuine) in
        (
          sent,
          record {
            assembler = assembler;
            restorer = restorer_of e ok err;
            dispatcher = dispatcher;
          },
          ap (λ x. run sha1 x datagrams) (sym is) ∙ rw (run, assembled, restored, dispatched) refl,
          IsFrom-IsData sent from,
        )
