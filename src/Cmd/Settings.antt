-- ===== src/Cmd/Settings.antt =====
-- `NewConfig` of cmd/client/main.go: the file of the client's settings, which is read, completed by
-- keys and written again. The parser and printer of TOML and that of ids are parameters.
use fec.Prelude.{ℕ, Option, none, some, List, [], ◌++◌, length, take, drop}
use fec.Io.{Wrote, wrote, write_error}
use fec.Client.{ServerConfig, FecConfig, EncoderConfig, DecoderConfig, Config}
use fec.Cmd.Keys.{KeyLibrary, must_new_private_key, new_public_key}

pub record PeerFile : Type 0 where
  pub id : List ℕ
  pub port_caller : ℕ
  pub port_listener : ℕ

pub record SecurityFile : Type 0 where
  pub private_key : List ℕ
  pub public_key : List ℕ

-- The fields of the file.
pub record FileConfig : Type 0 where
  pub peer : PeerFile
  pub fec_config : FecConfig
  pub server : ServerConfig
  pub security : SecurityFile
  pub encoder : EncoderConfig
  pub decoder : DecoderConfig

pub record AppConfig : Type 0 where
  pub peer_id : List ℕ
  pub private_key : List ℕ
  pub public_key : List ℕ
  pub client_config : Config

pub record ConfigLibrary : Type 0 where
  pub toml_decode : List ℕ → Option FileConfig
  pub toml_encode : FileConfig → List ℕ
  pub uuid_from_string : List ℕ → Option (List ℕ)
  pub keys : KeyLibrary

pub data LoadError : Type 0 where
  no_file bad_toml bad_id : LoadError

-- What `NewConfig` ends with: settings, and the file behind it; an error in front of the write; an
-- error of the write, and the file behind it; or it panics, or waits for a key to be typed.
pub data Loaded : Type 0 where
  loaded : AppConfig → List ℕ → Loaded
  failed : LoadError → Loaded
  half_written : List ℕ → Loaded
  panics waits : Loaded

-- `config.ClientConfig`; the mode is not set.
unfoldable pub client_config : FileConfig → Config
client_config cfg = record {
  peer = record {
    id = [];
    mode = [];
    port_caller = cfg.peer.port_caller;
    port_listener = cfg.peer.port_listener;
  };
  server = cfg.server;
  fec_config = cfg.fec_config;
  encoder = cfg.encoder;
  decoder = cfg.decoder;
}

unfoldable pub app_config : FileConfig → List ℕ → List ℕ → List ℕ → AppConfig
app_config cfg id prk puk = record {
  peer_id = id;
  private_key = prk;
  public_key = puk;
  client_config = client_config cfg;
}

-- `cfg` with the texts of the keys.
unfoldable pub with_keys : KeyLibrary → FileConfig → List ℕ → List ℕ → FileConfig
with_keys lib cfg prk puk = record cfg {
  security = record { private_key = lib.hex_encode prk; public_key = lib.hex_encode puk };
}

-- Writing from the start of a file, which is not cut off behind it.
unfoldable pub overwrite : List ℕ → List ℕ → List ℕ
overwrite old new = new ++ drop (length new) old

-- `Encode(cfg)` to the file, which writes it whole, or some bytes of it and then fails.
unfoldable pub save : ConfigLibrary → List ℕ → FileConfig → AppConfig → Wrote → Loaded
save lib file cfg config (wrote n) = loaded config (overwrite file (lib.toml_encode cfg))
save lib file cfg config (write_error n) =
    half_written (overwrite file (take n (lib.toml_encode cfg)))

-- The file, if it opens; what `GenerateKey` gives; what is typed; and what the file answers to the
-- write. Seeking to its start does not fail.
unfoldable pub new_config :
    ConfigLibrary → Option (List ℕ) → Option (List ℕ) → List (List ℕ) → Wrote → Loaded
new_config lib none generated typed answer = failed no_file
new_config lib (some file) generated typed answer = elim (lib.toml_decode file) [
  | none ↦ failed bad_toml
  | some cfg ↦ elim (lib.uuid_from_string cfg.peer.id) [
    | none ↦ failed bad_id
    | some id ↦ elim (must_new_private_key lib.keys cfg.security.private_key generated) [
      | none ↦ panics
      | some prk ↦ elim (new_public_key lib.keys cfg.security.public_key typed) [
        | none ↦ waits
        | some puk ↦
            save lib file (with_keys lib.keys cfg prk puk) (app_config cfg id prk puk) answer
      ]
    ]
  ]
]
