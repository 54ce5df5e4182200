-- ===== src/Adapter/Groups.antt =====
-- The stacks and their spellings of the groups (adapters/cli/src/backend.rs).
pub mod Spelling
use pqc_sec_inspection_cours.Prelude.{
  ◌||◌, Bool, List, [], ◌∷◌, ◌++◌, map, Text, codes, text_eq, to_ascii_lowercase, contains_text,
  if◌then◌else◌, Result, ok, err,
}
use pqc_sec_inspection_cours.Proto.{ProbeRequest}

pub data Backend : Type 0 where
  openssl boringssl wolfssl mock : Backend

-- `Backend::parse`
unfoldable pub parse : Text → Result Backend Text
parse name =
    if text_eq name (codes "openssl")
    then ok openssl
    else if text_eq name (codes "boringssl")
    then ok boringssl
    else if text_eq name (codes "wolfssl")
    then ok wolfssl
    else if text_eq name (codes "mock")
    then ok mock
    else err (codes "unknown backend " ++ name)

abbrev pub classical_groups : List Text
classical_groups =
    codes "x25519"
    ∷ codes "x448"
    ∷ codes "p-256"
    ∷ codes "p-384"
    ∷ codes "p-521"
    ∷ codes "secp256r1"
    ∷ codes "secp384r1"
    ∷ codes "secp521r1"
    ∷ codes "prime256v1"
    ∷ []

unfoldable pub is_classical_group : Text → Bool
is_classical_group name = contains_text classical_groups (to_ascii_lowercase name)

-- The arms of a `match` on a text, in their order, and what stands for any other text.
unfoldable pub translate : List (Text × Text) → Text → Text → Text
translate [] key other = other
translate ((from, to) ∷ arms) key other =
    let rest = translate arms key other in if text_eq key from then to else rest

abbrev pub openssl_spellings : List (Text × Text)
openssl_spellings =
    (codes "mlkem512", codes "MLKEM512")
    ∷ (codes "mlkem768", codes "MLKEM768")
    ∷ (codes "mlkem1024", codes "MLKEM1024")
    ∷ (codes "x25519mlkem768", codes "X25519MLKEM768")
    ∷ (codes "secp256r1mlkem768", codes "SecP256r1MLKEM768")
    ∷ (codes "secp384r1mlkem1024", codes "SecP384r1MLKEM1024")
    ∷ (codes "p-256", codes "P-256")
    ∷ (codes "secp256r1", codes "P-256")
    ∷ (codes "p-384", codes "P-384")
    ∷ (codes "secp384r1", codes "P-384")
    ∷ (codes "p-521", codes "P-521")
    ∷ (codes "secp521r1", codes "P-521")
    ∷ (codes "x25519", codes "x25519")
    ∷ (codes "x448", codes "x448")
    ∷ []

abbrev pub wolfssl_spellings : List (Text × Text)
wolfssl_spellings =
    (codes "mlkem512", codes "ML_KEM_512")
    ∷ (codes "mlkem768", codes "ML_KEM_768")
    ∷ (codes "mlkem1024", codes "ML_KEM_1024")
    ∷ []

abbrev pub spellings : Backend → List (Text × Text)
spellings openssl = openssl_spellings
spellings boringssl = openssl_spellings
spellings wolfssl = wolfssl_spellings
spellings mock = []

unfoldable pub stack_group : Backend → Text → Text
unfolding translate
stack_group backend name = translate (spellings backend) (to_ascii_lowercase name) name

abbrev pub stack_groups : Backend → ProbeRequest → List Text
stack_groups backend request = map (stack_group backend) request.kem_groups
