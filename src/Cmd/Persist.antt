-- ===== src/Cmd/Persist.antt =====
-- The settings of cmd/client/main.go from one start to the next.
use fec.Prelude.{
  ℕ, ◌≤◌, ◌≡◌, refl, ap, ◌∙◌, Option, some, List, [], ◌∷◌, append-nil, zero, suc, length, take,
  drop, drop_all, arith,
}
use fec.Io.{Wrote, wrote, write_error}
use fec.Cmd.Keys.{KeyLibrary, read_key, must_new_private_key, new_public_key}
use fec.Cmd.Settings.{
  FileConfig, AppConfig, ConfigLibrary, loaded, client_config, app_config, with_keys, overwrite,
  save, half_written, new_config,
}

-- The documented behaviour of the libraries: what is printed is read back.
pub record ReadsBack (lib : ConfigLibrary) : Type 0 where
  pub toml : (cfg : FileConfig) → lib.toml_decode (lib.toml_encode cfg) ≡ some cfg
  pub hex : (bytes : List ℕ) → lib.keys.hex_decode (lib.keys.hex_encode bytes) ≡ some bytes

read_key-hex_encode :
    (lib : KeyLibrary) (new_key : List ℕ → Option (List ℕ)) (key : List ℕ)
    → lib.hex_decode (lib.hex_encode key) ≡ some key
    → new_key key ≡ some key
    → read_key lib.hex_decode new_key (lib.hex_encode key) ≡ some key
unfolding read_key
read_key-hex_encode lib new_key key back is_key = rw (read_key, back, is_key) refl

new_public_key-read :
    (lib : KeyLibrary) (text key : List ℕ) (typed : List (List ℕ))
    → read_key lib.hex_decode lib.public_key text ≡ some key
    → new_public_key lib text typed ≡ some key
unfolding new_public_key
new_public_key-read lib text key [] e = e
new_public_key-read lib text key (t ∷ typed) e = rw (new_public_key, e) refl

must_new_private_key-read :
    (lib : KeyLibrary) (text key : List ℕ) (generated : Option (List ℕ))
    → read_key lib.hex_decode lib.private_key text ≡ some key
    → must_new_private_key lib text generated ≡ some key
unfolding must_new_private_key
must_new_private_key-read lib text key generated e = rw (must_new_private_key, e) refl

overwrite_longer : (old new : List ℕ) → length old ≤ length new → overwrite old new ≡ new
unfolding overwrite
overwrite_longer old new h = rw (drop_all (length new) old h) (append-nil new)

-- Writing the front of a file again leaves it as it is.
overwrite-take : (text : List ℕ) (n : ℕ) → overwrite text (take n text) ≡ text
unfolding overwrite take drop
overwrite-take text zero = refl
overwrite-take [] (suc n) = refl
overwrite-take (x ∷ text) (suc n) = ap (λ xs. x ∷ xs) (overwrite-take text n)

-- A start that comes to the write of the file.
pub new_config-save :
    (lib : ConfigLibrary) (file : List ℕ) (cfg : FileConfig) (id prk puk : List ℕ)
    (generated : Option (List ℕ)) (typed : List (List ℕ)) (answer : Wrote)
    → lib.toml_decode file ≡ some cfg
    → lib.uuid_from_string cfg.peer.id ≡ some id
    → must_new_private_key lib.keys cfg.security.private_key generated ≡ some prk
    → new_public_key lib.keys cfg.security.public_key typed ≡ some puk
    → new_config lib (some file) generated typed answer
      ≡ save lib file (with_keys lib.keys cfg prk puk) (app_config cfg id prk puk) answer
unfolding new_config
new_config-save lib file cfg id prk puk generated typed answer d i p q =
    rw (new_config, d, i, p, q) refl

module _ (lib : ConfigLibrary) (back : ReadsBack lib) where
  -- The start of a client: the file is read, its id and its keys are found or made, and both keys
  -- are read back from their bytes. If the file is written whole, and is no shorter than the old
  -- one, then any later start finds the same settings, with the same keys, whatever would be
  -- generated or typed then, and leaves the file as it is; even if it fails to write it, for which
  -- it returns the error.
  pub new_config-again :
      (file : List ℕ) (cfg : FileConfig) (id prk puk : List ℕ)
      (generated generated' : Option (List ℕ)) (typed typed' : List (List ℕ)) (n n' : ℕ)
      → lib.toml_decode file ≡ some cfg
      → lib.uuid_from_string cfg.peer.id ≡ some id
      → must_new_private_key lib.keys cfg.security.private_key generated ≡ some prk
      → new_public_key lib.keys cfg.security.public_key typed ≡ some puk
      → lib.keys.private_key prk ≡ some prk
      → lib.keys.public_key puk ≡ some puk
      → length file ≤ length (lib.toml_encode (with_keys lib.keys cfg prk puk))
      → (config : AppConfig) × (written : List ℕ) × (new_config lib
            (some file)
            generated
            typed
            (wrote n)
          ≡ loaded config written)
        × (new_config lib (some written) generated' typed' (wrote n') ≡ loaded config written)
        × (new_config lib (some written) generated' typed' (write_error n') ≡ half_written written)
        × (config.private_key ≡ prk)
        × (config.public_key ≡ puk)
  unfolding with_keys app_config client_config save
  new_config-again file cfg id prk puk generated generated' typed typed' n n' d i p q kp kq longer =
      let keyed = with_keys lib.keys cfg prk puk in
      let text = lib.toml_encode keyed in
      let first =
        new_config-save lib file cfg id prk puk generated typed (wrote n) d i p q
        ∙ ap (loaded (app_config cfg id prk puk)) (overwrite_longer file text longer) in
      let prk_again =
        must_new_private_key-read lib.keys (lib.keys.hex_encode prk) prk generated'
          (read_key-hex_encode lib.keys lib.keys.private_key prk (back.hex prk) kp) in
      let puk_again =
        new_public_key-read lib.keys (lib.keys.hex_encode puk) puk typed'
          (read_key-hex_encode lib.keys lib.keys.public_key puk (back.hex puk) kq) in
      let again : (answer : Wrote)
          → new_config lib (some text) generated' typed' answer
            ≡ save lib text keyed (app_config cfg id prk puk) answer =
        λ answer.
          new_config-save lib text keyed id prk puk generated' typed' answer (back.toml keyed) i
            prk_again puk_again in
      (
        app_config cfg id prk puk,
        text,
        first,
        again (wrote n')
            ∙ ap (loaded (app_config cfg id prk puk)) (overwrite_longer text text (omega arith)),
        again (write_error n') ∙ ap half_written (overwrite-take text n'),
        refl,
        refl,
      )
