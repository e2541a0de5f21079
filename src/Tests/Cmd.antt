-- ===== src/Tests/Cmd.antt =====
-- Settings that are kept, keys that are typed, and frames that come.
use fec.Prelude.{
  ℕ, ◌≡◌, refl, true, false, Option, none, some, List, [], ◌∷◌, ◌++◌, arith, map, length, replicate,
  take, drop, take-append, drop-append,
}
use fec.Io.{wrote, write_error}
use fec.Cmd.Keys.{KeyLibrary, read_key, new_public_key, must_new_private_key, new_public_key_lem}
use fec.Cmd.Settings.{
  FileConfig, AppConfig, ConfigLibrary, loaded, half_written, with_keys, new_config,
}
use fec.Cmd.Persist.{ReadsBack, new_config-again}
use fec.Cmd.Stats.{
  Arrival, comes, noted, read_rows, read_rows-frame, frame, write_frames, write_plain, accepted,
}

-- Keys are the texts that begin with 7, and hex writes a 1 in front.
abbrev keys : KeyLibrary
keys = record {
  hex_decode = λ text. elim text [ [] ↦ none | b ∷ bytes ↦ some bytes ];
  hex_encode = λ bytes. 1 ∷ bytes;
  private_key = λ raw. elim raw [ [] ↦ none | b ∷ bytes ↦ some (b ∷ bytes) ];
  public_key = λ raw. elim raw [ [] ↦ none | b ∷ bytes ↦ some (b ∷ bytes) ];
}

new_public_key_lem_example :
    new_public_key keys [] ((5 ∷ []) ∷ (1 ∷ 7 ∷ []) ∷ (1 ∷ 8 ∷ []) ∷ []) ≡ some (7 ∷ [])
unfolding read_key
new_public_key_lem_example =
    new_public_key_lem keys [] ((5 ∷ []) ∷ []) (1 ∷ 7 ∷ []) (7 ∷ []) ((1 ∷ 8 ∷ []) ∷ []) refl
      (refl, tt) refl

-- A file holds only its keys, the private one first.
abbrev settings : List ℕ → List ℕ → FileConfig
settings prk puk = record {
  peer = record { id = 3 ∷ []; port_caller = 1; port_listener = 2 };
  fec_config = record { data_parts = 2; total_parts = 3 };
  server = record { port = 25565; addr = [] };
  security = record { private_key = prk; public_key = puk };
  encoder = record { dispatcher_timeout = 100; dispatcher_size = 2 };
  decoder = record { assembler_size = 4; dispatcher_size = 8 };
}

-- The numbers, three lengths, and the texts.
unfoldable pub print_settings : FileConfig → List ℕ
print_settings c =
    c.peer.port_caller
    ∷ c.peer.port_listener
    ∷ c.fec_config.data_parts
    ∷ c.fec_config.total_parts
    ∷ c.server.port
    ∷ c.encoder.dispatcher_timeout
    ∷ c.encoder.dispatcher_size
    ∷ c.decoder.assembler_size
    ∷ c.decoder.dispatcher_size
    ∷ length c.peer.id
    ∷ length c.server.addr
    ∷ length c.security.private_key
    ∷ (c.peer.id ++ (c.server.addr ++ (c.security.private_key ++ c.security.public_key)))

unfoldable pub parse_settings : List ℕ → Option FileConfig
parse_settings
      (caller ∷ listener ∷ parts ∷ total ∷ port ∷ timeout ∷ batch ∷ lines ∷ places ∷ i ∷ j ∷ k
        ∷ texts) =
    some (record {
      peer = record { id = take i texts; port_caller = caller; port_listener = listener };
      fec_config = record { data_parts = parts; total_parts = total };
      server = record { port = port; addr = take j (drop i texts) };
      security = record {
        private_key = take k (drop j (drop i texts));
        public_key = drop k (drop j (drop i texts));
      };
      encoder = record { dispatcher_timeout = timeout; dispatcher_size = batch };
      decoder = record { assembler_size = lines; dispatcher_size = places };
    })
parse_settings other = none

abbrev pub library : ConfigLibrary
library = record {
  toml_decode = parse_settings;
  toml_encode = print_settings;
  uuid_from_string = λ text. some text;
  keys = keys;
}

pub parse-print_settings : (c : FileConfig) → parse_settings (print_settings c) ≡ some c
unfolding parse_settings print_settings
parse-print_settings c =
    let keys = c.security.private_key ++ c.security.public_key in
    rw
      (
        take-append (length c.peer.id) c.peer.id (c.server.addr ++ keys) refl,
        drop-append (length c.peer.id) c.peer.id (c.server.addr ++ keys) refl,
        take-append (length c.server.addr) c.server.addr keys refl,
        drop-append (length c.server.addr) c.server.addr keys refl,
        take-append (length c.security.private_key) c.security.private_key c.security.public_key
            refl,
        drop-append (length c.security.private_key) c.security.private_key c.security.public_key
            refl,
      )
      refl

library-ReadsBack : ReadsBack library
library-ReadsBack = record { toml = parse-print_settings; hex = λ bytes. refl }

new_config-again_example :
    (config : AppConfig) × (written : List ℕ) × (new_config library
        (some (print_settings (settings [] [])))
        (some (9 ∷ []))
        ((1 ∷ 8 ∷ []) ∷ [])
        (wrote 17)
      ≡ loaded config written)
    × (new_config library (some written) none [] (wrote 17) ≡ loaded config written)
    × (new_config library (some written) none [] (write_error 17) ≡ half_written written)
    × (config.private_key ≡ 9 ∷ [])
    × (config.public_key ≡ 8 ∷ [])
unfolding read_key new_public_key must_new_private_key print_settings with_keys
new_config-again_example =
    new_config-again library library-ReadsBack (print_settings (settings [] [])) (settings [] [])
      (3 ∷ []) (9 ∷ []) (8 ∷ []) (some (9 ∷ [])) none ((1 ∷ 8 ∷ []) ∷ []) [] 17 17
      (parse-print_settings (settings [] [])) refl refl refl refl refl (omega arith)

abbrev late_then_early : List Arrival
late_then_early =
    record { i = 4; now = 1700; random = 9 ∷ []; at = 1900 }
    ∷ record { i = 3; now = 1600; random = []; at = 1901 }
    ∷ []

read_rows-frame_example :
    read_rows (replicate 20 0) (map comes late_then_early) ≡ (map noted late_then_early, true)
unfolding replicate
read_rows-frame_example = read_rows-frame (replicate 20 0) late_then_early (
  record { number = omega arith; time = omega arith; fits = omega arith },
  (record { number = omega arith; time = omega arith; fits = omega arith }, tt),
)

-- Two rounds of a writer, of which the second is cut short.
written_frames :
    write_plain (
      record { now = 5; random = some (replicate 1008 1); answer = wrote 1024 }
      ∷ record { now = 6; random = some (replicate 1008 2); answer = wrote 10 }
      ∷ record { now = 7; random = some (replicate 1008 3); answer = wrote 1024 }
      ∷ [])
    ≡ (frame 0 5 (replicate 1008 1) ∷ frame 1 6 (replicate 1008 2) ∷ [], false)
unfolding write_plain write_frames accepted replicate
written_frames = refl
