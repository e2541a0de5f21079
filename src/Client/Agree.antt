-- ===== src/Client/Agree.antt =====
-- The encoder and the decoder that `NewClient` of src/client.go makes.
use mathlib.Core.Path.{subst}
use fec.Prelude.{
  dec_lt, ◌≢◌, mul64, ℕ, ◌≤◌, ◌<◌, ◌≡◌, inl, inr, refl, sym, ap, ◌∙◌, Bool, true, false, ◌&&◌, ltb,
  Bool-cases, Option, none, some, arith, Option-cases, lt→ltb, ltb-false, ◌==◌, ==_iff,
}
use fec.Codec.ReedSolomon.{ReedSolomon}
use fec.Codec.Encoder.{
  Coder, NewError, zero_data, few_parts, no_code, New, made, failed, panics, makes, incoming_size,
  new_encoder,
}
use fec.Codec.Decoder.{new_decoder}
use fec.Codec.Recovery.Made.{
  encoder_of, decoder_of, EncoderFits, DecoderFits, new_encoder_lem, new_decoder_lem,
}
use fec.Client.{Config, Client, new_client}

-- The code and the numbers of shards of a configuration.
abbrev pub coder_of : ReedSolomon → Config → Coder
coder_of rs cfg = record {
  rs = rs;
  total = cfg.fec_config.total_parts;
  parts = cfg.fec_config.data_parts;
}

-- `make` does not panic for the sizes of a configuration.
pub record ClientFits (rs : ReedSolomon) (cfg : Config) : Type 0 where
  pub encoder : EncoderFits (coder_of rs cfg) cfg.encoder.dispatcher_size
  pub decoder :
      DecoderFits cfg.fec_config.total_parts cfg.decoder.assembler_size cfg.decoder.dispatcher_size

-- With at least one data shard, at least two shards, a code for these numbers and sizes for which
-- `make` does not panic, a client is made.
pub new_client_lem :
    (new_rs : ℕ → ℕ → Option ReedSolomon) (cfg : Config) (rs : ReedSolomon)
    → 0 < cfg.fec_config.data_parts
    → 2 ≤ cfg.fec_config.total_parts
    → new_rs cfg.fec_config.data_parts cfg.fec_config.total_parts ≡ some rs
    → ClientFits rs cfg
    → (c : Client) × (new_client new_rs cfg ≡ made c)
unfolding new_client
new_client_lem new_rs cfg rs pos two code f =
    let e = coder_of rs cfg in
    let encoder = new_encoder_lem new_rs e cfg.encoder.dispatcher_size pos two code f.encoder in
    let decoder =
      new_decoder_lem new_rs e cfg.decoder.assembler_size cfg.decoder.dispatcher_size pos two code
        f.decoder in
    (
      record {
        port_caller = cfg.peer.port_caller;
        port_listener = cfg.peer.port_listener;
        server_port = cfg.server.port;
        server_addr = cfg.server.addr;
        accepted_local_addr = none;
        encoder = encoder_of e cfg.encoder.dispatcher_size;
        decoder = decoder_of e cfg.decoder.assembler_size cfg.decoder.dispatcher_size;
      },
      rw (new_client, encoder, decoder) refl,
    )

-- What an error of the constructor says of the configuration.
abbrev pub IsCause : (ℕ → ℕ → Option ReedSolomon) → Config → NewError → Type 0
IsCause new_rs cfg zero_data = cfg.fec_config.data_parts ≡ 0
IsCause new_rs cfg few_parts = (0 < cfg.fec_config.data_parts) × (cfg.fec_config.total_parts < 2)
IsCause new_rs cfg no_code =
    (0 < cfg.fec_config.data_parts)
    × (2 ≤ cfg.fec_config.total_parts)
    × (new_rs cfg.fec_config.data_parts cfg.fec_config.total_parts ≡ none)

abbrev errs : {A : Type 0} → New A → Bool
errs (failed e) = true
errs (made a) = false
errs panics = false

true≢false : true ≢ false
true≢false h = cc

-- Where there is a code, `NewClient` may panic but returns no error.
new_client-errs :
    (new_rs : ℕ → ℕ → Option ReedSolomon) (cfg : Config) (rs : ReedSolomon)
    → (cfg.fec_config.data_parts == 0) ≡ false
    → ltb cfg.fec_config.total_parts 2 ≡ false
    → new_rs cfg.fec_config.data_parts cfg.fec_config.total_parts ≡ some rs
    → errs (new_client new_rs cfg) ≡ false
unfolding new_client new_encoder new_decoder
new_client-errs new_rs cfg rs parts total code =
    let lines = cfg.decoder.assembler_size in
    elim (Bool-cases (
      makes 1 (incoming_size cfg.fec_config.data_parts)
      && makes 8 (mul64 cfg.fec_config.total_parts cfg.encoder.dispatcher_size))) [
        | inr b ↦ rw (errs, new_client, parts, total, code, b) refl
        | inl b ↦ elim (Bool-cases (makes 8 cfg.decoder.dispatcher_size)) [
          | inr p ↦ rw (errs, new_client, parts, total, code, b, new_client, parts, total, p) refl
          | inl p ↦
              elim (Bool-cases
                (makes 8 lines && makes 8 (mul64 lines cfg.fec_config.total_parts))) [
                  | inr l ↦
                      rw
                        (
                          errs, new_client, parts, total, code, b, new_client, parts, total, p,
                          code, l,
                        )
                        refl
                  | inl l ↦
                      rw
                        (
                          errs, new_client, parts, total, code, b, new_client, parts, total, p,
                          code, l,
                        )
                        refl
                ]
        ]
      ]

failed-injective : (d e : NewError) (n : New Client) → n ≡ failed d → n ≡ failed e → d ≡ e
failed-injective d e n g h = ap (λ x. elim x [ failed x ↦ x | panics ↦ d | made a ↦ d ]) (sym g ∙ h)

module _ (new_rs : ℕ → ℕ → Option ReedSolomon) (cfg : Config) (e : NewError) where
  caused :
      (d : NewError)
      → new_client new_rs cfg ≡ failed d
      → IsCause new_rs cfg d
      → new_client new_rs cfg ≡ failed e
      → IsCause new_rs cfg e
  caused d now cause h =
      subst (IsCause new_rs cfg) (failed-injective d e (new_client new_rs cfg) now h) cause

  -- An error of `NewClient` tells why there is no client: there is no data shard, or else there
  -- are fewer than two shards, or else there is no code for these numbers.
  pub new_client-IsCause : new_client new_rs cfg ≡ failed e → IsCause new_rs cfg e
  unfolding new_client new_encoder
  new_client-IsCause h = elim (Bool-cases (cfg.fec_config.data_parts == 0)) [
    | inl z ↦
        caused zero_data (rw (new_client, z) refl) ((==_iff cfg.fec_config.data_parts 0).0 z) h
    | inr nz ↦
        let pos : 0 < cfg.fec_config.data_parts = ground (arith, nz) in
        elim (dec_lt cfg.fec_config.total_parts 2) [
          | yes few ↦
              caused few_parts (rw (new_client, nz, lt→ltb cfg.fec_config.total_parts 2 few) refl)
                (pos, few) h
          | no many ↦
              let two : 2 ≤ cfg.fec_config.total_parts = omega (arith, many) in
              elim (Option-cases (new_rs cfg.fec_config.data_parts cfg.fec_config.total_parts)) [
                | inl e0 ↦
                    caused no_code
                      (rw (new_client, nz, ltb-false cfg.fec_config.total_parts 2 two, e0) refl)
                      (pos, two, e0) h
                | inr (rs, code) ↦
                    let none_of =
                      new_client-errs new_rs cfg rs nz (ltb-false cfg.fec_config.total_parts 2 two)
                        code in
                    absurd (true≢false (sym (ap errs h) ∙ none_of))
              ]
        ]
  ]
