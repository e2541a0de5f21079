-- ===== src/Cmd/Main.antt =====
-- `main` of cmd/client/main.go, up to where the client runs. crypto/ecdh is the parameter `ecdh`;
-- the output, on which `NewHandler` insists, is there.
use fec.Prelude.{ℕ, ◌+◌, ◌≤◌, ◌<◌, ◌≡◌, refl, Bool, true, Option, none, some, List, length, copy}
use fec.Io.{got, Wrote, wrote}
use fec.Codec.ReedSolomon.{ReedSolomon}
use fec.Codec.Packet.{packet_size}
use fec.Codec.Encoder.{NewError}
use fec.Codec.Encoder
use fec.Secure.{Aead, returns}
use fec.Client.{Client, new_client}
use fec.Client.Agree.{ClientFits, new_client_lem}
use fec.Client.Connect.{Sockets}
use fec.Client.Handshake.{IsAnswered}
use fec.Client.Run.{RunError, Started, IsFirst, run_iff}
use fec.Client.Run
use fec.Cmd.Keys.{KeyLibrary, must_new_private_key, new_public_key}
use fec.Cmd.Settings.{
  FileConfig, AppConfig, ConfigLibrary, LoadError, client_config, app_config, with_keys, overwrite,
  save, new_config,
}
use fec.Cmd.Settings
use fec.Cmd.Persist.{new_config-save}
use fec.Cmd.Handler.{
  ServerReader, ServerWriter, new_handler, handler_reader, handler_writer, read, write,
}
use fec.Cmd.Pipe.{HasCipher, handler_of, read-write_through}

-- What `log.Fatalln` reports.
pub data MainError : Type 0 where
  no_config : LoadError → MainError
  no_client : NewError → MainError
  not_saved no_secret no_handler : MainError
  not_running : RunError → MainError

-- The client runs, with its writer and its reader and the number of its file; or `main` ends, or it
-- waits for a key or a file.
pub data Ended : Type 0 where
  runs : Client → ServerWriter → ServerReader → ℕ → Ended
  fatal : MainError → Ended
  panics waits : Ended

unfoldable pub ended : Client → Started ServerWriter ServerReader → Ended
ended client (Run.started w r i) = runs client w r i
ended client (Run.failed e) = fatal (not_running e)
ended client Run.waits = waits

-- What a start finds: the file of the settings, what `GenerateKey` gives, what is typed, what the
-- file answers to the write, what the sockets do, and which files for statistics can be created.
pub record Launch : Type 0 where
  pub file : Option (List ℕ)
  pub generated : Option (List ℕ)
  pub typed : List (List ℕ)
  pub saved : Wrote
  pub sockets : Sockets
  pub creates : List Bool

module _ (new_rs : ℕ → ℕ → Option ReedSolomon) (new_gcm : List ℕ → Option Aead)
    (ecdh : List ℕ → List ℕ → Option (List ℕ)) where
  unfoldable pub start : Launch → AppConfig → Client → Option (List ℕ) → Ended
  start l config client none = fatal no_secret
  start l config client (some secret) = elim (new_handler true (some secret)) [
    | none ↦ fatal no_handler
    | some h ↦ ended client (
        Run.run l.sockets config.peer_id (handler_writer new_gcm h) (handler_reader new_gcm h)
          l.creates)
  ]

  unfoldable pub main : ConfigLibrary → Launch → Ended
  main lib l = elim (new_config lib l.file l.generated l.typed l.saved) [
    | Settings.failed e ↦ fatal (no_config e)
    | Settings.half_written file ↦ fatal not_saved
    | Settings.panics ↦ panics
    | Settings.waits ↦ waits
    | Settings.loaded config written ↦ elim (new_client new_rs config.client_config) [
      | Encoder.failed e ↦ fatal (no_client e)
      | Encoder.panics ↦ panics
      | Encoder.made client ↦ start l config client (ecdh config.private_key config.public_key)
    ]
  ]

  -- Nothing is missing: the settings are read, right and written again, there is a code for their
  -- numbers of shards, `make` does not panic for their sizes, the relay answers, and a file can be
  -- created.
  pub record IsReady (lib : ConfigLibrary) (l : Launch) (prk puk : List ℕ) : Type 0 where
    pub file : List ℕ
    pub cfg : FileConfig
    pub id : List ℕ
    pub rs : ReedSolomon
    pub number : ℕ
    pub count : ℕ
    pub has_file : l.file ≡ some file
    pub decodes : lib.toml_decode file ≡ some cfg
    pub has_id : lib.uuid_from_string cfg.peer.id ≡ some id
    pub id_len : length id ≡ 16
    pub private : must_new_private_key lib.keys cfg.security.private_key l.generated ≡ some prk
    pub public : new_public_key lib.keys cfg.security.public_key l.typed ≡ some puk
    pub some_data : 0 < cfg.fec_config.data_parts
    pub two : 2 ≤ cfg.fec_config.total_parts
    pub code : new_rs cfg.fec_config.data_parts cfg.fec_config.total_parts ≡ some rs
    pub saves : l.saved ≡ wrote count
    pub fits : ClientFits rs (client_config cfg)
    pub answered : IsAnswered l.sockets id
    pub first : IsFirst number l.creates

  main-runs :
      (lib : ConfigLibrary) (l : Launch) (prk puk secret : List ℕ) (w : ServerWriter)
      (r : ServerReader)
      → IsReady lib l prk puk
      → ecdh prk puk ≡ some secret
      → handler_writer new_gcm (handler_of (some secret)) ≡ some w
      → handler_reader new_gcm (handler_of (some secret)) ≡ some r
      → (c : Client) × (i : ℕ) × (main lib l ≡ runs c w r i)
  unfolding main start new_handler ended app_config client_config save
  main-runs lib l prk puk secret w r ready shared hw hr =
      let config = app_config ready.cfg ready.id prk puk in
      let loads =
        new_config-save lib ready.file ready.cfg ready.id prk puk l.generated l.typed l.saved
          ready.decodes ready.has_id ready.private ready.public in
      let (c, makes) =
        new_client_lem new_rs (client_config ready.cfg) ready.rs ready.some_data ready.two
          ready.code ready.fits in
      let going =
        (run_iff l.sockets ready.id (some w) (some r) l.creates w r ready.number ready.id_len).1
          (record {
            answered = ready.answered;
            has_writer = refl;
            has_reader = refl;
            first = ready.first;
          }) in
      (
        c,
        ready.number,
        rw (main, ready.has_file, loads, ready.saves, makes, shared, start, hw, hr, going, ended)
            refl,
      )

  -- The documented behaviour of crypto/ecdh and crypto/aes: the exchange of two private keys, each
  -- with the public key of the other, gives both the same 32 bytes, for which there is a cipher
  -- that behaves as AES-GCM is documented.
  pub record IsExchange (keys : KeyLibrary) (public_of : List ℕ → List ℕ) : Type 0 where
    pub agrees :
        (a b : List ℕ)
        → keys.private_key a ≡ some a
        → keys.private_key b ≡ some b
        → (secret : List ℕ) × (ecdh a (public_of b) ≡ some secret)
          × (ecdh b (public_of a) ≡ some secret)
          × (length secret ≡ 32)
    pub cipher : (secret : List ℕ) → length secret ≡ 32 → HasCipher new_gcm (some secret)

  -- Two clients, each with a private key of its own and the public key of the other, found in its
  -- settings, or generated and typed. The exchange of keys and the cipher behave as documented.
  -- With settings that are right and can be written again, sizes for which `make` does not panic,
  -- a relay that answers, and files that can be created, both programs run. A packet that the first
  -- then writes to the relay, with a nonce of 12 random bytes, is one datagram, 28 bytes longer;
  -- and when it comes whole to the second, into an argument with room for it, it is read back as it
  -- was.
  pub main_pair :
      (lib : ConfigLibrary) (public_of : List ℕ → List ℕ) (l l' : Launch) (prk prk' : List ℕ)
      (p q random : List ℕ) (accepted : List ℕ → Wrote)
      → IsExchange lib.keys public_of
      → lib.keys.private_key prk ≡ some prk
      → lib.keys.private_key prk' ≡ some prk'
      → IsReady lib l prk (public_of prk')
      → IsReady lib l' prk' (public_of prk)
      → length p ≡ packet_size
      → packet_size ≤ length q
      → length random ≡ 12
      → (c c' : Client) × (w w' : ServerWriter) × (r r' : ServerReader) × (i i' : ℕ) × (block : List
          ℕ)
        × (main lib l ≡ runs c w r i)
        × (main lib l' ≡ runs c' w' r' i')
        × ((write w p (some random) accepted).1.0 ≡ some block)
        × (length block ≡ packet_size + 28)
        × ((read r' q (got block)).0 ≡ (returns packet_size, copy q p))
  main_pair lib public_of l l' prk prk' p q random accepted x key key' ready ready' hp hq hr =
      let (secret, shared, shared', long) = x.agrees prk prk' key key' in
      let (w, r, block, hw, hrd, sent, len, back, counted) =
        read-write_through new_gcm (some secret) p q random accepted (x.cipher secret long) hp hq
          hr in
      let (c, i, first) = main-runs lib l prk (public_of prk') secret w r ready shared hw hrd in
      let (c', i', second) =
        main-runs lib l' prk' (public_of prk) secret w r ready' shared' hw hrd in
      (c, c', w, w, r, r, i, i', block, first, second, sent, len, back)
