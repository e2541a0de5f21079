-- ===== src/Tests/Main.antt =====
-- Two programs that start with the public key of the other in their settings.
use fec.Prelude.{
  ℕ, ◌+◌, ◌≡◌, refl, sym, ap, append-nil, true, false, Option, none, some, List, [], ◌∷◌, ◌++◌,
  arith, length, length-replicate, replicate, get_or, copy,
}
use fec.Io.{got, wrote}
use fec.Relay.{uid}
use fec.Codec.Packet.{packet_size}
use fec.Secure.{returns}
use fec.Client.{Client}
use fec.Client.Connect.{handshake}
use fec.Client.Handshake.{joined}
use fec.Cmd.Keys.{read_key, must_new_private_key, new_public_key}
use fec.Cmd.Settings.{FileConfig, client_config}
use fec.Cmd.Handler.{ServerReader, ServerWriter, read, write}
use fec.Codec.Encoder.{makes, incoming_size}
use fec.Cmd.Main.{Launch, IsReady, IsExchange, main, runs, main_pair}
use fec.Tests.Code.{sum_code}
use fec.Tests.Safety.{new_sum_code}
use fec.Tests.Relay.{alice, bob, alice-IsId, bob-IsId}
use fec.Tests.Secure.{plain, plain-IsGcm}
use fec.Tests.Cmd.{library, print_settings, parse-print_settings}

-- A public key is the private one and 100, and the secret is made of the sum of two keys.
abbrev public_of : List ℕ → List ℕ
public_of prk = (get_or prk 0 0 + 100) ∷ []

abbrev ecdh : List ℕ → List ℕ → Option (List ℕ)
ecdh prk puk = some (replicate 32 (get_or prk 0 0 + get_or puk 0 0))

ecdh-IsExchange : IsExchange new_sum_code (λ secret. some plain) ecdh library.keys public_of
ecdh-IsExchange = record {
  agrees = λ a b ka kb. (
    replicate 32 (get_or a 0 0 + (get_or b 0 0 + 100)),
    refl,
    ap (λ n. some (replicate 32 n)) (omega arith),
    length-replicate {A = ℕ} 32 (get_or a 0 0 + (get_or b 0 0 + 100)),
  );
  cipher = λ secret long. (plain, refl, plain-IsGcm);
}

abbrev settings_of : List ℕ → ℕ → ℕ → FileConfig
settings_of id prk puk = record {
  peer = record { id = id; port_caller = 1; port_listener = 2 };
  fec_config = record { data_parts = 2; total_parts = 3 };
  server = record { port = 25565; addr = [] };
  security = record { private_key = 1 ∷ prk ∷ []; public_key = 1 ∷ puk ∷ [] };
  encoder = record { dispatcher_timeout = 100; dispatcher_size = 2 };
  decoder = record { assembler_size = 4; dispatcher_size = 8 };
}

abbrev launch : List ℕ → ℕ → ℕ → Launch
launch id prk puk = record {
  file = some (print_settings (settings_of id prk puk));
  generated = none;
  typed = [];
  saved = wrote 0;
  sockets = joined (uid ++ id);
  creates = false ∷ true ∷ [];
}

launch-IsReady :
    (id : List ℕ) (prk puk : ℕ)
    → length id ≡ 16
    → IsReady new_sum_code
        (λ secret. some plain)
        ecdh
        library
        (launch id prk puk)
        (prk ∷ [])
        (puk ∷ [])
unfolding read_key must_new_private_key new_public_key handshake replicate makes incoming_size
    client_config
launch-IsReady id prk puk len = record {
  file = print_settings (settings_of id prk puk);
  cfg = settings_of id prk puk;
  id = id;
  rs = sum_code;
  number = 1;
  count = 0;
  has_file = refl;
  decodes = parse-print_settings (settings_of id prk puk);
  has_id = refl;
  id_len = len;
  private = refl;
  public = refl;
  some_data = omega arith;
  two = omega arith;
  code = refl;
  saves = refl;
  fits = record {
    encoder = record { buffer = refl; packets = refl };
    decoder = record { places = refl; all_lines = refl; packets = refl };
  };
  answered = record {
    listener = refl;
    caller = refl;
    server = refl;
    written = refl;
    more = [];
    reply = ap got (sym (append-nil (uid ++ id)));
  };
  first = ([], refl);
}

main_pair_example :
    (c c' : Client) × (w w' : ServerWriter) × (r r' : ServerReader) × (i i' : ℕ) × (block : List ℕ)
    × (main new_sum_code (λ secret. some plain) ecdh library (launch alice 9 108) ≡ runs c w r i)
    × (main new_sum_code (λ secret. some plain) ecdh library (launch bob 8 109) ≡ runs c' w' r' i')
    × ((write w (replicate packet_size 6) (some (replicate 12 5)) (λ b. wrote 0)).1.0 ≡ some block)
    × (length block ≡ packet_size + 28)
    × ((read r' (replicate 1500 0) (got block)).0
        ≡ (returns packet_size, copy (replicate 1500 0) (replicate packet_size 6)))
main_pair_example =
    main_pair new_sum_code (λ secret. some plain) ecdh library public_of (launch alice 9 108)
      (launch bob 8 109) (9 ∷ []) (8 ∷ []) (replicate packet_size 6) (replicate 1500 0)
      (replicate 12 5) (λ b. wrote 0) ecdh-IsExchange refl refl
      (launch-IsReady alice 9 108 alice-IsId.sized) (launch-IsReady bob 8 109 bob-IsId.sized)
      (length-replicate {A = ℕ} packet_size 6) (omega (arith, length-replicate {A = ℕ} 1500 0))
      (length-replicate {A = ℕ} 12 5)
