-- ===== src/Keystore/Tests.antt =====
-- Rotations of a keystore in a vault of one blob, at concrete keys.
use adonis_authkit.Prelude.{
  ◌≡◌, refl, true, false, Option, none, some, [], ◌∷◌, map, if◌then◌else◌, String, take, drop,
}
use adonis_authkit.Keystore.{
  Jwk, Keystore, text, number, field, kid, is_private_name, Encryption, Encoding, plain, Envelope,
  Json, CodecOptions, encode, decode, Vault, read_keystore, rotate, Rotated, plan, RotationPlan,
  to_public_jwks,
}
use adonis_authkit.Keystore.Codec.{RoundTrips, Decrypts, decode-encode_store}
use adonis_authkit.Keystore.Rotation.{
  Holds, rotate-plan, newest_first, rotations, rotations-read, to_public_jwks_lem,
}

-- Texts as trees.
data Tree : Type 0 where
  of_store : Keystore → Tree
  of_envelope : Encoding → Tree → Tree
  secret : Tree → Tree

abbrev parse_store : Tree → Option Keystore
parse_store (of_store k) = some k
parse_store _ = none

abbrev parse_envelope : Tree → Option (Envelope Tree)
parse_envelope (of_envelope enc t) = some (record { enc = enc; content = t })
parse_envelope _ = none

abbrev decrypt : Tree → Option Tree
decrypt (secret t) = some t
decrypt _ = none

abbrev json : Json
json = record {
  Printed = Tree;
  print_store = of_store;
  parse_store = parse_store;
  print_envelope = λ e. of_envelope e.enc e.content;
  parse_envelope = parse_envelope;
}

json-RoundTrips : RoundTrips json
json-RoundTrips = record { store = λ k. refl; envelope = λ e. refl }

abbrev encryption : Encryption Tree
encryption = record { encrypt = secret; decrypt = decrypt }

encryption-Decrypts : Decrypts Tree encryption
encryption-Decrypts = record { back = λ s. refl }

abbrev options : CodecOptions Tree
options = record { encrypt = true; enc = some encryption }

abbrev vault : Vault Tree
vault = record { State = Option Tree; read = λ s. some s; write = λ b s. some (some b) }

vault-Holds : Holds Tree vault
vault-Holds = record {
  content = λ s. s;
  after_write = λ b s. some b;
  read_lem = λ s. refl;
  write_lem = λ b s. refl;
  content_write = λ b s. refl;
}

abbrev key : String → Jwk
key name = ("kid", text name) ∷ ("d", text "secret") ∷ ("iat", number 5) ∷ []

abbrev held : Option Tree
held = some (of_envelope plain (of_store (key "a" ∷ key "b" ∷ [])))

held-read : read_keystore json vault options held ≡ some (some (key "a" ∷ key "b" ∷ []))
unfolding read_keystore decode
held-read = refl

decode-encode_store_run :
    (blob : Tree) × (encode json options (key "a" ∷ []) ≡ some blob)
    × (decode json options blob ≡ some (key "a" ∷ []))
decode-encode_store_run =
    decode-encode_store json options encryption (key "a" ∷ []) json-RoundTrips encryption-Decrypts
      refl

rotate-plan_example :
    (r : Rotated) × (t : Option Tree) × (p : RotationPlan) × (rotate json vault options 2 false
        (key "c")
        held
      ≡ some (r, t))
    × (plan json vault options 2 false held ≡ some p)
    × (read_keystore json vault options t ≡ some (some r.store))
    × (r.retired_kids ≡ p.retired_kids)
    × (map kid r.store ≡ r.new_kid ∷ drop 1 p.kept_kids)
rotate-plan_example =
    rotate-plan json vault options vault-Holds json-RoundTrips encryption encryption-Decrypts refl 2
      false (key "c") held (some (key "a" ∷ key "b" ∷ [])) held-read

rotations-read_example :
    (t : Option Tree) × (rotations json vault options vault-Holds json-RoundTrips encryption
        encryption-Decrypts refl 2
        (key "c" ∷ key "d" ∷ [])
        held
      ≡ some t)
    × (read_keystore json vault options t
        ≡ some (some (take 2 (newest_first (key "c" ∷ key "d" ∷ []) (key "a" ∷ key "b" ∷ [])))))
rotations-read_example =
    rotations-read json vault options vault-Holds json-RoundTrips encryption encryption-Decrypts
      refl 1 (key "c") (key "d" ∷ []) held (some (key "a" ∷ key "b" ∷ [])) held-read

to_public_jwks_lem_run :
    map (field "d") (to_public_jwks (key "a" ∷ []))
    ≡ map (λ jwk. if is_private_name "d" then none else field "d" jwk) (key "a" ∷ [])
to_public_jwks_lem_run = to_public_jwks_lem "d" (key "a" ∷ [])
