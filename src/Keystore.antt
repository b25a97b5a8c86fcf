-- ===== src/Keystore.antt =====
-- Signing keys: packages/authkit-server/src/keys/keystore.ts, keystore_codec.ts and
-- keystore_manager.ts.
pub mod Codec
pub mod Rotation
mod Tests
use adonis_authkit.Prelude.{
  ℕ, ◌-◌, ◌/◌, ◌≡◌, Bool, true, false, not, Option, none, some, List, [], ◌∷◌, ◌++◌, map,
  if◌then◌else◌, ltb, String, str_eq, take, drop, keep, some_of,
}

-- The value of a field of a JWK.
pub data Field : Type 0 where
  text : String → Field
  number : ℕ → Field
  other : Field

abbrev pub Jwk : Type 0
Jwk = List (String × Field)

abbrev pub Keystore : Type 0
Keystore = List Jwk

abbrev pub field : String → Jwk → Option Field
field name [] = none
field name ((key, value) ∷ jwk) = if str_eq key name then some value else field name jwk

-- `jwk[name] = value`: a field that is there keeps its place.
unfoldable pub set : String → Field → Jwk → Jwk
set name value [] = (name, value) ∷ []
set name value ((key, old) ∷ jwk) =
    let rest = set name value jwk in
    if str_eq key name then (key, value) ∷ jwk else (key, old) ∷ rest

-- `exported` is the new private key as jose exports it, and `now` in seconds.
unfoldable pub generate_signing_jwk : String → String → ℕ → Jwk → Jwk
unfolding set
generate_signing_jwk alg uuid now exported =
    set "iat" (number now)
      (set "kid" (text uuid) (set "alg" (text alg) (set "use" (text "sig") exported)))

abbrev pub kid : Jwk → Option Field
kid jwk = field "kid" jwk

pub record ManagedKeyInfo : Type 0 where
  pub kid : Option Field
  pub alg : Field
  pub age_days : ℕ
  pub active : Bool

abbrev days_since : Option Field → ℕ → ℕ
days_since (some (number iat)) now = (now - iat) / 86400
days_since _ now = 0

abbrev field_or : Field → Option Field → Field
field_or fallback none = fallback
field_or fallback (some f) = f

-- The age in days of the key that signs.
unfoldable pub signing_key_age_days : Keystore → ℕ → Option ℕ
signing_key_age_days [] now = none
signing_key_age_days (jwk ∷ _) now = elim (field "iat" jwk) [
  | some (number iat) ↦ some ((now - iat) / 86400)
  | some (text _) ↦ none
  | some other ↦ none
  | none ↦ none
]

abbrev key_info : Bool → ℕ → Jwk → ManagedKeyInfo
key_info active now jwk = record {
  kid = kid jwk;
  alg = field_or (text "RS256") (field "alg" jwk);
  age_days = days_since (field "iat" jwk) now;
  active = active;
}

-- The first key is the active one.
unfoldable pub list_key_infos : Keystore → ℕ → List ManagedKeyInfo
list_key_infos [] now = []
list_key_infos (jwk ∷ keys) now = key_info true now jwk ∷ map (key_info false now) keys

-- How many keys stay: one, if the old ones are retired, and never none.
abbrev pub effective_keep : ℕ → Bool → ℕ
effective_keep n retire = if retire then 1 else if ltb 1 n then n else 1

-- The new key has no `kid` yet; it stands as `<new>`.
pub record RotationPlan : Type 0 where
  pub current_kid : Option Field
  pub kept_kids : List (Option Field)
  pub retired_kids : List (Option Field)
  pub keep : ℕ

abbrev first_kid : Keystore → Option Field
first_kid [] = none
first_kid (jwk ∷ _) = kid jwk

unfoldable pub plan_rotation : Keystore → ℕ → Bool → RotationPlan
plan_rotation current n retire = record {
  current_kid = first_kid current;
  kept_kids = take (effective_keep n retire) (some (text "<new>") ∷ map kid current);
  retired_kids = drop (effective_keep n retire) (some (text "<new>") ∷ map kid current);
  keep = effective_keep n retire;
}

unfoldable pub is_private_name : String → Bool
is_private_name key = some_of (str_eq key) ("d" ∷ "p" ∷ "q" ∷ "dp" ∷ "dq" ∷ "qi" ∷ "iat" ∷ [])

abbrev pub is_public : String × Field → Bool
is_public (key, _) = not (is_private_name key)

unfoldable pub to_public_jwks : Keystore → Keystore
to_public_jwks keys = map (keep is_public) keys

-- The encryption of the host, @adonisjs/core, over the texts `T`: a parameter.
pub record Encryption (T : Type 0) : Type 0 where
  pub encrypt : T → T
  pub decrypt : T → Option T

pub data Encoding : Type 0 where
  plain aes : Encoding

pub record Envelope (T : Type 0) : Type 0 where
  pub enc : Encoding
  pub content : T

-- JSON texts, of the two things that are written. What cannot be read as one is `none`.
pub record Json : Type 1 where
  pub Printed : Type 0
  pub print_store : Keystore → Printed
  pub parse_store : Printed → Option Keystore
  pub print_envelope : Envelope Printed → Printed
  pub parse_envelope : Printed → Option (Envelope Printed)

pub record CodecOptions (T : Type 0) : Type 0 where
  pub encrypt : Bool
  pub enc : Option (Encryption T)

module _ (json : Json) (options : CodecOptions json.Printed) where
  -- `none` is a throw: encryption asked for, and none there.
  unfoldable pub encode : Keystore → Option json.Printed
  encode store =
      if options.encrypt
      then elim options.enc [
        | none ↦ none
        | some e ↦ some (
            json.print_envelope
              (record { enc = aes; content = e.encrypt (json.print_store store) }))
      ]
      else some (json.print_envelope (record { enc = plain; content = json.print_store store }))

  abbrev decrypted : json.Printed → Option Keystore
  decrypted data_ = elim options.enc [
    | none ↦ none
    | some e ↦ elim (e.decrypt data_) [ none ↦ none | some s ↦ json.parse_store s ]
  ]

  unfoldable pub decode : json.Printed → Option Keystore
  decode blob = elim (json.parse_envelope blob) [
    | none ↦ none
    | some envelope ↦ elim envelope.enc [
      | plain ↦ json.parse_store envelope.content
      | aes ↦ decrypted envelope.content
    ]
  ]

-- Where the blob is kept: a parameter, as `KeystoreVault` lets it. `none` is a throw, and
-- `some none` that there is no blob.
pub record Vault (T : Type 0) : Type 1 where
  pub State : Type 0
  pub read : State → Option (Option T)
  pub write : T → State → Option State

pub record Rotated : Type 0 where
  pub store : Keystore
  pub new_kid : Option Field
  pub retired_kids : List (Option Field)

-- `fresh` is the key that `generate_signing_jwk` makes.
module _ (json : Json) (vault : Vault json.Printed) (options : CodecOptions json.Printed) where
  unfoldable pub read_keystore : vault.State → Option (Option Keystore)
  unfolding decode
  read_keystore s = elim (vault.read s) [
    | none ↦ none
    | some none ↦ some none
    | some (some blob) ↦ elim (decode json options blob) [
      | none ↦ none
      | some store ↦ some (some store)
    ]
  ]

  unfoldable pub write_keystore : Keystore → vault.State → Option vault.State
  unfolding encode
  write_keystore store s = elim (encode json options store) [
    | none ↦ none
    | some blob ↦ vault.write blob s
  ]

  unfoldable pub ensure : Jwk → vault.State → Option (Keystore × vault.State)
  unfolding read_keystore write_keystore
  ensure fresh s = elim (read_keystore s) [
    | none ↦ none
    | some (some store) ↦ some (store, s)
    | some none ↦ elim (write_keystore (fresh ∷ []) s) [
      | none ↦ none
      | some t ↦ some (fresh ∷ [], t)
    ]
  ]

  abbrev pub keys_or_none : Option Keystore → Keystore
  keys_or_none none = []
  keys_or_none (some keys) = keys

  abbrev pub rotated : ℕ → Bool → Jwk → Keystore → Rotated
  rotated n retire fresh current = record {
    store = take (effective_keep n retire) (fresh ∷ current);
    new_kid = kid fresh;
    retired_kids = map kid (drop (effective_keep n retire) (fresh ∷ current));
  }

  unfoldable pub rotate : ℕ → Bool → Jwk → vault.State → Option (Rotated × vault.State)
  unfolding read_keystore write_keystore
  rotate n retire fresh s = elim (read_keystore s) [
    | none ↦ none
    | some found ↦
        let r = rotated n retire fresh (keys_or_none found) in
        elim (write_keystore r.store s) [ none ↦ none | some t ↦ some (r, t) ]
  ]

  unfoldable pub plan : ℕ → Bool → vault.State → Option RotationPlan
  unfolding read_keystore plan_rotation
  plan n retire s = elim (read_keystore s) [
    | none ↦ none
    | some found ↦ some (plan_rotation (keys_or_none found) n retire)
  ]
