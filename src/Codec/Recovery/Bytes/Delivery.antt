-- ===== src/Codec/Recovery/Bytes/Delivery.antt =====
-- From the messages of `aggregateQueue` of src/codec/encoder.go to the data of `resultQueue` of
-- src/codec/decoder.go, when no datagram is lost.
use mathlib.Core.Path.{subst}
use native.Mathlib.Nat.{div-add-mod, mod-lt}
use fec.Prelude.{
  ℕ, ◌+◌, ◌*◌, ◌/◌, ◌%◌, ◌^◌, ◌≤◌, ◌<◌, ◌≡◌, refl, sym, ap, ◌∙◌, Option, some, List, [], ◌++◌, map,
  arith, length, take, get_or,
}
use fec.Codec.ReedSolomon.{ReedSolomon}
use fec.Codec.Packet.{marshal}
use fec.Codec.Encoder.{Coder, Encoder, made, incoming_size, new_encoder}
use fec.Codec.Encoder.Aggregate.{Event}
use fec.Codec.Encoder.Aggregate.Stream.{flat, brought, aggregate_all_lem}
use fec.Codec.Encoder.Aggregate.Count.{aggregate_all-count}
use fec.Codec.Encoder.Dispatch.{dispatch_all}
use fec.Codec.Encoder.Run as EncoderRun
use fec.Codec.Decoder.{Decoder, new_decoder}
use fec.Codec.Decoder.Run as DecoderRun
use fec.Codec.Recovery.Restored.{IsCoder, Fits}
use fec.Codec.Recovery.Stream.{data_from}
use fec.Codec.Recovery.Made.{encoder_of, new_encoder-encoder_of}
use fec.Codec.Recovery.Bytes.{
  incoming_size-eq, numbered, at-numbered, AreData-eq, data_from-take, HasSizes, encoder_of-IsEmpty,
  IsAtMost-Fits, rest_of, given-rest_of, length-rest_of,
}
use fec.Codec.Recovery.Spread.Lines.{times_le}
use fec.Codec.Recovery.Spread.Sent.{chunks_from, encode_all-chunks_from}
use fec.Codec.Recovery.Spread.Dispatched.{rounds_from, dispatch_all-batches}
use fec.Codec.Recovery.Spread.Lossless.{
  all_heard, length-all_heard, all_heard-AreSent, sent-all_heard,
}
use fec.Codec.Recovery.Spread.Delivery.{run-sent}

module _ (sha1 : List ℕ → List ℕ) (sha1_len : (x : List ℕ) → length (sha1 x) ≡ 20) where
  module _ (e : Coder) (v : IsCoder e) (n : ℕ) (pos : 0 < n) (sizes : HasSizes e n) where
    -- What the encoder makes of the messages: the rounds of the whole batches of numbered chunks.
    record Encoded (events : List Event) : Type 0 where
      pub chunks : List (List ℕ)
      pub buf : List ℕ
      pub out : Encoder
      pub fits : (i : ℕ) → Fits e (numbered chunks i)
      pub whole : flat chunks ++ buf ≡ brought events
      pub few : length (rest_of n chunks buf) < n * incoming_size e.parts
      pub counted : length chunks ≤ length (brought events) + length events
      pub sent :
          EncoderRun.run sha1 (encoder_of e n) events
          ≡ some (
            map
                (marshal sha1)
                (rounds_from sha1 e (numbered chunks) v fits n 1 (length chunks / n)),
            out,
          )

    run-Encoded :
        (events : List Event)
        → (1 + (length (brought events) + length events)) * e.total < 2 ^ 64
        → Encoded events
    unfolding EncoderRun.run
    run-Encoded events small =
        let a = (encoder_of e n).aggregator in
        let size : 0 < incoming_size e.parts =
          omega (arith, incoming_size-eq e.parts v.some_parts v.small, v.some_parts) in
        let (chunks, b, sent, cuts) = aggregate_all_lem events a size in
        let fits = IsAtMost-Fits e chunks v.some_parts v.small cuts.chunks in
        let counted = aggregate_all-count events a b chunks size sent in
        let few : (1 + length chunks) * e.total < 2 ^ 64 = omega (
          arith,
          small,
          times_le (1 + length chunks) (1 + (length (brought events) + length events)) e.total
              (omega (arith, counted)),
        ) in
        let these : (i : ℕ) → i < length chunks → numbered chunks (1 + i) ≡ get_or chunks i [] =
          λ i lt. at-numbered chunks i in
        let packets =
          encode_all-chunks_from e (numbered chunks) v fits 1 chunks few
            (AreData-eq e (numbered chunks) chunks 1 these) in
        let split = div-add-mod (length chunks) n in
        let (d, dispatched) =
          dispatch_all-batches sha1 e (numbered chunks) v fits (length chunks / n)
            (length chunks % n) 1 (encoder_of e n).dispatcher
            (encoder_of-IsEmpty e n (omega (arith, v.some_parts, v.enough)) pos sizes)
            (mod-lt (length chunks) {m = n} pos)
            (subst (λ k. (1 + k) * e.total < 2 ^ 64) (sym split) few) in
        let dispatched' =
          ap
            (λ k.
              dispatch_all sha1 (encoder_of e n).dispatcher (chunks_from e (numbered chunks) 1 k))
            (sym split)
          ∙ dispatched in
        record {
          chunks = chunks;
          buf = b.buf;
          out = record { aggregator = b; coder = e; csn = 1 + length chunks; dispatcher = d };
          fits = fits;
          whole = cuts.whole;
          few =
              length-rest_of (incoming_size e.parts) n chunks b.buf pos cuts.chunks
                (subst (λ c. length b.buf < c) cuts.same_cap cuts.room);
          counted = omega (arith, counted);
          sent = rw (sent, EncoderRun.run, packets, dispatched') refl;
        }

    -- With a hash of 20 bytes and a Reed-Solomon code that behaves as documented, `parts` of the
    -- `total` shards of a chunk being data, `2 ≤ parts` and `total ≤ 2 ^ 32`. `NewEncoder` and
    -- `NewDecoder` make an encoder, which interleaves `n` chunks, `n` not zero, and a decoder for
    -- these numbers of shards; the decoder has at least `n` lines; the sizes of both and the
    -- numbers of the packets do not overflow. The messages of the encoder's first goroutine are
    -- data of any length and timers in any order, and the decoder gets all datagrams that the
    -- encoder's last goroutine sends, in their order. Then no goroutine of either panics, and the
    -- data that comes out of the decoder, put together, is the data that went into the encoder, up
    -- to less than `n` chunks of bytes at its end.
    pub run-run :
        (new_rs : ℕ → ℕ → Option ReedSolomon) (lines size : ℕ) (enc : Encoder) (dec : Decoder)
        (events : List Event)
        → new_rs e.parts e.total ≡ some e.rs
        → 2 ≤ e.parts
        → e.total ≤ 2 ^ 32
        → n ≤ lines
        → lines * e.total < 2 ^ 64
        → new_encoder new_rs n e.parts e.total ≡ made enc
        → new_decoder new_rs e.parts e.total lines size ≡ made dec
        → (1 + (length (brought events) + length events)) * e.total < 2 ^ 64
        → (sent : List (List ℕ)) × (enc' : Encoder) × (out : List (List ℕ)) × (dec' : Decoder)
          × (rest : List ℕ) × (EncoderRun.run sha1 enc events ≡ some (sent, enc'))
          × (DecoderRun.run sha1 dec sent ≡ some (out, dec'))
          × (flat out ++ rest ≡ brought events)
          × (length rest < n * incoming_size e.parts)
    run-run new_rs lines size enc dec events code two few room table new_e new_d small =
        let two' : 2 ≤ e.total = omega (arith, two, v.enough) in
        let x = run-Encoded events small in
        let src = numbered x.chunks in
        let k = length x.chunks / n in
        let hs = all_heard sha1 sha1_len e src n 1 k in
        let many : length hs ≡ k = length-all_heard sha1 sha1_len e src n 1 k in
        let split = div-add-mod (length x.chunks) n in
        let small' : (1 + n * k) * e.total < 2 ^ 64 = omega (
          arith,
          small,
          times_le (1 + n * k) (1 + (length (brought events) + length events)) e.total
              (omega (arith, split, x.counted)),
        ) in
        let heard = all_heard-AreSent sha1 sha1_len e src n v x.fits few 1 k small' in
        let (dec', decoded) =
          run-sent sha1 sha1_len e src n v x.fits few new_rs lines size dec hs code two pos room
            table new_d heard (subst (λ m. (1 + n * m) * e.total < 2 ^ 64) (sym many) small') in
        let same = sent-all_heard sha1 sha1_len e src n v x.fits few 1 k in
        let out : data_from src 1 (n * length hs) ≡ take (n * k) x.chunks =
          ap (λ m. data_from src 1 (n * m)) many
          ∙ data_from-take src x.chunks 1 (n * k) (omega (arith, split))
              (λ i lt. at-numbered x.chunks i) in
        (
          map (marshal sha1) (rounds_from sha1 e src v x.fits n 1 k),
          x.out,
          take (n * k) x.chunks,
          dec',
          rest_of n x.chunks x.buf,
          ap (λ y. EncoderRun.run sha1 y events)
                (sym (new_encoder-encoder_of new_rs e n enc v.some_parts two' code new_e))
              ∙ x.sent,
          ap (λ qs. DecoderRun.run sha1 dec (map (marshal sha1) qs)) (sym same)
              ∙ decoded
              ∙ ap (λ ys. some (ys, dec')) out,
          given-rest_of n x.chunks x.buf (brought events) x.whole,
          x.few,
        )
