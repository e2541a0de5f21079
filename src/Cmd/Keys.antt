-- ===== src/Cmd/Keys.antt =====
-- The keys of cmd/client/main.go. crypto/ecdh and encoding/hex are parameters; a key is its
-- `Bytes()`.
use fec.Prelude.{ℕ, ◌≡◌, refl, Option, none, some, List, [], ◌∷◌, ◌++◌, All}

pub record KeyLibrary : Type 0 where
  pub hex_decode : List ℕ → Option (List ℕ)
  pub hex_encode : List ℕ → List ℕ
  pub private_key : List ℕ → Option (List ℕ)
  pub public_key : List ℕ → Option (List ℕ)

-- The key that a text stands for, by the constructor of its kind.
unfoldable pub read_key :
    (List ℕ → Option (List ℕ)) → (List ℕ → Option (List ℕ)) → List ℕ → Option (List ℕ)
read_key hex_decode new_key text = elim (hex_decode text) [ none ↦ none | some raw ↦ new_key raw ]

-- `generated` is what `GenerateKey` gives; `none` is a panic.
unfoldable pub must_new_private_key : KeyLibrary → List ℕ → Option (List ℕ) → Option (List ℕ)
must_new_private_key lib text generated = elim (read_key lib.hex_decode lib.private_key text) [
  | none ↦ generated
  | some prk ↦ some prk
]

-- `typed` is what the user types in; `none` means that the loop waits for more of it.
unfoldable pub new_public_key : KeyLibrary → List ℕ → List (List ℕ) → Option (List ℕ)
new_public_key lib text [] = read_key lib.hex_decode lib.public_key text
new_public_key lib text (next ∷ typed) =
    let rest = new_public_key lib next typed in
    elim (read_key lib.hex_decode lib.public_key text) [ none ↦ rest | some puk ↦ some puk ]

-- The text is no public key.
abbrev pub IsNoKey : KeyLibrary → List ℕ → Type 0
IsNoKey lib text = read_key lib.hex_decode lib.public_key text ≡ none

-- The loop ends with the first public key: if the text of the file is none and neither are those
-- that are typed first, but the next one is, its key is returned, whatever comes behind it.
pub new_public_key_lem :
    (lib : KeyLibrary) (text : List ℕ) (wrong : List (List ℕ)) (right puk : List ℕ)
    (more : List (List ℕ))
    → IsNoKey lib text
    → All (IsNoKey lib) wrong
    → read_key lib.hex_decode lib.public_key right ≡ some puk
    → new_public_key lib text (wrong ++ (right ∷ more)) ≡ some puk
unfolding new_public_key
new_public_key_lem lib text [] right puk [] bad none_of good = rw (new_public_key, bad, good) refl
new_public_key_lem lib text [] right puk (m ∷ more) bad none_of good =
    rw (new_public_key, bad, new_public_key, good) refl
new_public_key_lem lib text (w ∷ wrong) right puk more bad (h, none_of) good =
    rw (new_public_key, bad) (new_public_key_lem lib w wrong right puk more h none_of good)
