-- ===== src/Codec/Recovery/Made.antt =====
-- What `NewEncoder` of src/codec/encoder.go and `NewDecoder` of src/codec/decoder.go make.
use fec.Prelude.{
  ℕ, ◌<◌, ◌≤◌, ◌≡◌, ◌≢◌, inl, inr, refl, sym, ap, ◌∙◌, true, Bool-cases, Option, none, some, [],
  arith, replicate, ltb-false, ==_false, mul64,
}
use fec.Codec.ReedSolomon.{ReedSolomon}
use fec.Codec.Encoder.{Coder, Encoder, New, made, failed, panics, makes, incoming_size, new_encoder}
use fec.Codec.Decoder.{Decoder, Dispatcher, new_decoder}
use fec.Codec.Decoder.Assembly.Fresh.{fresh_assembler}
use fec.Codec.Recovery.Restored.{restorer_of}

abbrev pub fresh_dispatcher_of : ℕ → Dispatcher
fresh_dispatcher_of size = record {
  size = size;
  first = 0;
  last = 0;
  awaiting = 1;
  chunks = replicate size none;
  ok = 0;
  err = 0;
}

-- The decoder that `NewDecoder` makes for the numbers of shards of an encoder.
abbrev pub decoder_of : Coder → ℕ → ℕ → Decoder
decoder_of e lines size = record {
  assembler = fresh_assembler e.parts e.total lines;
  restorer = restorer_of e 0 0;
  dispatcher = fresh_dispatcher_of size;
}

-- `make` does not panic for the sizes of a decoder.
pub record DecoderFits (total lines size : ℕ) : Type 0 where
  pub places : makes 8 size ≡ true
  pub all_lines : makes 8 lines ≡ true
  pub packets : makes 8 (mul64 lines total) ≡ true

pub new_decoder_lem :
    (new_rs : ℕ → ℕ → Option ReedSolomon) (e : Coder) (lines size : ℕ)
    → 0 < e.parts
    → 2 ≤ e.total
    → new_rs e.parts e.total ≡ some e.rs
    → DecoderFits e.total lines size
    → new_decoder new_rs e.parts e.total lines size ≡ made (decoder_of e lines size)
unfolding new_decoder
new_decoder_lem new_rs e lines size pos two code f =
    rw
      (
        ==_false e.parts 0 (omega arith),
        ltb-false e.total 2 two,
        f.places,
        code,
        f.all_lines,
        f.packets,
      )
      refl

pub made-injective : {A : Type 0} (x y : A) → made x ≡ made y → x ≡ y
made-injective x y e = ap (λ n. elim n [ failed error ↦ x | panics ↦ x | made z ↦ z ]) e

pub panics≢made : {A : Type 0} (x : A) (n : New A) → n ≡ panics → n ≢ made x
panics≢made x n p e = cc

-- A decoder for these numbers of shards is made only if its sizes fit.
pub new_decoder-DecoderFits :
    (new_rs : ℕ → ℕ → Option ReedSolomon) (e : Coder) (lines size : ℕ) (d : Decoder)
    → 0 < e.parts
    → 2 ≤ e.total
    → new_rs e.parts e.total ≡ some e.rs
    → new_decoder new_rs e.parts e.total lines size ≡ made d
    → DecoderFits e.total lines size
unfolding new_decoder
new_decoder-DecoderFits new_rs e lines size d pos two code new =
    let parts = ==_false e.parts 0 (omega arith) in
    let total = ltb-false e.total 2 two in
    elim (Bool-cases (makes 8 size)) [
      | inr no_places ↦ absurd (panics≢made d _ (rw (parts, total, no_places) refl) new)
      | inl places ↦ elim (Bool-cases (makes 8 lines)) [
        | inr no_lines ↦
            absurd (panics≢made d _ (rw (parts, total, places, code, no_lines) refl) new)
        | inl all_lines ↦ elim (Bool-cases (makes 8 (mul64 lines e.total))) [
          | inr no_packets ↦
              absurd
                (panics≢made d _ (rw (parts, total, places, code, all_lines, no_packets) refl) new)
          | inl packets ↦ record { places = places; all_lines = all_lines; packets = packets }
        ]
      ]
    ]

-- What `NewDecoder` makes for the numbers of shards of an encoder.
pub new_decoder-decoder_of :
    (new_rs : ℕ → ℕ → Option ReedSolomon) (e : Coder) (lines size : ℕ) (d : Decoder)
    → 0 < e.parts
    → 2 ≤ e.total
    → new_rs e.parts e.total ≡ some e.rs
    → new_decoder new_rs e.parts e.total lines size ≡ made d
    → decoder_of e lines size ≡ d
new_decoder-decoder_of new_rs e lines size d pos two code new =
    let fits = new_decoder-DecoderFits new_rs e lines size d pos two code new in
    made-injective _ _ (sym (new_decoder_lem new_rs e lines size pos two code fits) ∙ new)

-- The encoder that `NewEncoder` makes.
abbrev pub encoder_of : Coder → ℕ → Encoder
encoder_of e n = record {
  aggregator = record { buf = []; cap = incoming_size e.parts };
  coder = e;
  csn = 0;
  dispatcher = record {
    chunks = n;
    per_chunk = e.total;
    count = 0;
    slots = replicate (mul64 e.total n) none;
  };
}

-- `make` does not panic for the sizes of an encoder.
pub record EncoderFits (e : Coder) (n : ℕ) : Type 0 where
  pub buffer : makes 1 (incoming_size e.parts) ≡ true
  pub packets : makes 8 (mul64 e.total n) ≡ true

pub new_encoder_lem :
    (new_rs : ℕ → ℕ → Option ReedSolomon) (e : Coder) (n : ℕ)
    → 0 < e.parts
    → 2 ≤ e.total
    → new_rs e.parts e.total ≡ some e.rs
    → EncoderFits e n
    → new_encoder new_rs n e.parts e.total ≡ made (encoder_of e n)
unfolding new_encoder
new_encoder_lem new_rs e n pos two code f =
    rw (==_false e.parts 0 (omega arith), ltb-false e.total 2 two, code, f.buffer, f.packets) refl

-- An encoder for these numbers of shards is made only if its sizes fit.
new_encoder-EncoderFits :
    (new_rs : ℕ → ℕ → Option ReedSolomon) (e : Coder) (n : ℕ) (enc : Encoder)
    → 0 < e.parts
    → 2 ≤ e.total
    → new_rs e.parts e.total ≡ some e.rs
    → new_encoder new_rs n e.parts e.total ≡ made enc
    → EncoderFits e n
unfolding new_encoder
new_encoder-EncoderFits new_rs e n enc pos two code new =
    let parts = ==_false e.parts 0 (omega arith) in
    let total = ltb-false e.total 2 two in
    elim (Bool-cases (makes 1 (incoming_size e.parts))) [
      | inr no_buffer ↦ absurd (panics≢made enc _ (rw (parts, total, code, no_buffer) refl) new)
      | inl buffer ↦ elim (Bool-cases (makes 8 (mul64 e.total n))) [
        | inr no_packets ↦
            absurd (panics≢made enc _ (rw (parts, total, code, buffer, no_packets) refl) new)
        | inl packets ↦ record { buffer = buffer; packets = packets }
      ]
    ]

pub new_encoder-encoder_of :
    (new_rs : ℕ → ℕ → Option ReedSolomon) (e : Coder) (n : ℕ) (enc : Encoder)
    → 0 < e.parts
    → 2 ≤ e.total
    → new_rs e.parts e.total ≡ some e.rs
    → new_encoder new_rs n e.parts e.total ≡ made enc
    → encoder_of e n ≡ enc
new_encoder-encoder_of new_rs e n enc pos two code new =
    let fits = new_encoder-EncoderFits new_rs e n enc pos two code new in
    made-injective _ _ (sym (new_encoder_lem new_rs e n pos two code fits) ∙ new)
