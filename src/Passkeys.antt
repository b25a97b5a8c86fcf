-- ===== src/Passkeys.antt =====
-- Passkeys of an account: packages/authkit-server/src/accounts/lucid_store/webauthn.ts. What
-- @simplewebauthn/server verifies is a parameter.
pub mod Removal
mod Tests
use adonis_authkit.Prelude.{
  ℕ, Bool, true, false, not, ◌&&◌, Option, none, some, List, [], ◌∷◌, map, Text, String, str_eq,
  first, keep, if◌then◌else◌,
}
use adonis_authkit.Db.{Table}
use adonis_authkit.Mfa.{MfaState, MfaContext, enabled, read, upsert}

pub record Credential : Type 0 where
  pub id : String
  pub account_id : String
  pub public_key : Text
  pub counter : ℕ
  pub transports : Option (List String)

-- What a registration proves.
pub record RegistrationInfo : Type 0 where
  pub id : String
  pub public_key : Text
  pub counter : ℕ
  pub transports : Option (List String)

-- `none` is a throw or a response that is not verified; an authentication gives the new counter.
pub record Ceremonies : Type 1 where
  pub Response : Type 0
  pub response_id : Response → String
  pub verify_registration : Response → Text → Option RegistrationInfo
  pub verify_authentication : Response → Text → Credential → Option ℕ

abbrev pub is_of : String → Credential → Bool
is_of account_id c = str_eq c.account_id account_id

abbrev pub is_credential : String → String → Credential → Bool
is_credential account_id id c = is_of account_id c && str_eq c.id id

abbrev pub enabling : ℕ → MfaState → MfaState
enabling now r = record r { mfa_enabled_at = some now }

abbrev pub credential_of : String → RegistrationInfo → Credential
credential_of account_id info = record {
  id = info.id;
  account_id = account_id;
  public_key = info.public_key;
  counter = info.counter;
  transports = info.transports;
}

module _ (db : Table Credential) (mfa : Table MfaState) (ctx : MfaContext)
    (ceremonies : Ceremonies) where
  pub record PasskeyWorld : Type 0 where
    pub credentials : db.State
    pub factors : mfa.State

  -- The second factor is switched on where it is off; `none` is a throw.
  unfoldable pub enable_mfa : String → ℕ → PasskeyWorld → Option Bool × PasskeyWorld
  unfolding upsert
  enable_mfa account_id now w =
      if enabled mfa ctx (read mfa ctx account_id w.factors)
      then (some true, w)
      else elim (upsert mfa ctx account_id (enabling now) w.factors) [
        | none ↦ (none, w)
        | some factors ↦ (some true, record w { factors = factors })
      ]

  -- `known` tells whether there is such an account.
  unfoldable pub verify_passkey_registration :
      String → Bool → ceremonies.Response → Text → ℕ → PasskeyWorld → Option Bool × PasskeyWorld
  unfolding enable_mfa
  verify_passkey_registration account_id known response challenge now w =
      if not known
      then (some false, w)
      else elim (ceremonies.verify_registration response challenge) [
        | none ↦ (some false, w)
        | some info ↦ elim (db.insert (credential_of account_id info) w.credentials) [
          | none ↦ (none, w)
          | some credentials ↦ enable_mfa account_id now (record w { credentials = credentials })
        ]
      ]

  abbrev pub passkeys : String → PasskeyWorld → List Credential
  passkeys account_id w = keep (is_of account_id) (db.rows w.credentials)

  abbrev pub ids_or_none : List Credential → Option (List String)
  ids_or_none [] = none
  ids_or_none (c ∷ cs) = some (c.id ∷ map (λ x. x.id) cs)

  -- The ids that may answer a challenge; `none` where there is no passkey.
  abbrev pub generate_passkey_authentication_options : String → PasskeyWorld → Option (List String)
  generate_passkey_authentication_options account_id w = ids_or_none (passkeys account_id w)

  -- The counter is saved by the key of the row.
  unfoldable pub verify_passkey_authentication :
      String → ceremonies.Response → Text → PasskeyWorld → Bool × PasskeyWorld
  verify_passkey_authentication account_id response challenge w =
      elim (first (is_credential account_id (ceremonies.response_id response))
        (db.rows w.credentials)) [
          | none ↦ (false, w)
          | some c ↦ elim (ceremonies.verify_authentication response challenge c) [
            | none ↦ (false, w)
            | some counter ↦ (
              true,
              record w {
                credentials =
                    db.update (λ x. str_eq x.id c.id) (λ x. record x { counter = counter })
                      w.credentials;
              },
            )
          ]
        ]

  abbrev pub remove_passkey : String → String → PasskeyWorld → PasskeyWorld
  remove_passkey account_id id w = record w {
    credentials = db.delete (is_credential account_id id) w.credentials;
  }
