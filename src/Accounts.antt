-- ===== src/Accounts.antt =====
-- The account store, its passwords: packages/authkit-server/src/accounts/lucid_store/core.ts. A call
-- gives the row where the code gives the account that it holds.
pub mod Tokens
pub mod Emails
pub mod Uses
pub mod Deadlines
pub mod SignIn
mod Tests
use adonis_authkit.Prelude.{
  ℕ, Bool, true, false, Option, none, some, List, [], ◌∷◌, ◌++◌, Text, same, String, str_eq, first,
  if◌then◌else◌,
}
use adonis_authkit.Db.{Table}
use adonis_authkit.Audit.{AuditEvent, password_rehashed}
use adonis_authkit.OtpLogin.{Platform}
use adonis_authkit.Passwords.{
  PasswordManager, Hooks, PolicyError, assert_acceptable, apply_current_pepper, verify,
}

pub record UserRow : Type 0 where
  pub id : String
  pub email : Text
  pub password : Text
  pub full_name : Option Text
  pub global_roles : List String
  pub email_verified_at : Option ℕ
  pub password_reset_token : Option Text
  pub password_reset_expires_at : Option ℕ
  pub email_verification_token : Option Text
  pub password_changed_at : Option ℕ

-- `make` is the hasher that the model runs before a save, `is_common` the list of common passwords,
-- and `tracks_changes` whether the model has the column `passwordChangedAt`.
pub record StoreContext : Type 0 where
  pub js : Platform
  pub hmac : Text → Text → Text
  pub passwords : PasswordManager
  pub hooks : Hooks
  pub make : Text → Text
  pub is_common : Text → Bool
  pub tracks_changes : Bool
  pub email_verification_ttl_hours : Option ℕ
  pub email_change_ttl_hours : Option ℕ

pub record CreateAccountInput : Type 0 where
  pub email : Text
  pub password : Text
  pub full_name : Option Text
  pub global_roles : Option (List String)
  pub email_verified : Bool

pub record ImportAccountInput : Type 0 where
  pub email : Text
  pub password_hash : Text
  pub full_name : Option Text
  pub global_roles : Option (List String)
  pub email_verified : Bool

abbrev pub has_id : String → UserRow → Bool
has_id id row = str_eq row.id id

abbrev pub has_email : Text → UserRow → Bool
has_email email row = same row.email email

abbrev roles_or_none : Option (List String) → List String
roles_or_none none = []
roles_or_none (some roles) = roles

module _ (db : Table UserRow) (ctx : StoreContext) where
  pub record StoreWorld : Type 0 where
    pub users : db.State
    pub audit : List AuditEvent

  abbrev pub rows : StoreWorld → List UserRow
  rows w = db.rows w.users

  -- `row.save()`, which writes the columns that were changed.
  abbrev pub save : UserRow → (UserRow → UserRow) → StoreWorld → StoreWorld
  save row change w = record w { users = db.update (has_id row.id) change w.users }

  abbrev pub find_by_id : String → StoreWorld → Option UserRow
  find_by_id id w = first (has_id id) (rows w)

  abbrev pub find_by_email : Text → StoreWorld → Option UserRow
  find_by_email email w = first (has_email email) (rows w)

  -- The store checks new passwords by the defaults, without a lookup of leaks.
  abbrev pub policy_error : Text → Option PolicyError
  policy_error password = assert_acceptable ctx.is_common (λ p. false) none password

  -- What a new password is stored as.
  abbrev pub stored : Text → Text
  stored password = ctx.make (apply_current_pepper ctx.hmac ctx.passwords.0 password)

  abbrev pub changed_at : ℕ → UserRow → Option ℕ
  changed_at now row = if ctx.tracks_changes then some now else row.password_changed_at

  -- A new hash is stored where the check asks for one.
  unfoldable pub rehashed : UserRow → Text → Bool → StoreWorld → StoreWorld
  rehashed row password rehash w =
      if rehash
      then record (save row (λ r. record r { password = ctx.make password }) w) {
        audit = password_rehashed row.id ∷ w.audit;
      }
      else w

  unfoldable pub verify_credentials : Text → Text → StoreWorld → Option UserRow × StoreWorld
  unfolding rehashed
  verify_credentials email password w = elim (find_by_email email w) [
    | none ↦ (none, w)
    | some row ↦
        let result = verify ctx.hmac ctx.passwords ctx.hooks row.password password in
        if result.ok then (some row, rehashed row password result.rehash w) else (none, w)
  ]

  -- A refusal by the policy, a throw of the insert, or the new row.
  pub data CreateResult : Type 0 where
    policy : PolicyError → CreateResult
    insert_failed : CreateResult
    created : UserRow → CreateResult

  abbrev pub new_row : String → CreateAccountInput → ℕ → UserRow
  new_row id input now = record {
    id = id;
    email = input.email;
    password = stored input.password;
    full_name = input.full_name;
    global_roles = roles_or_none input.global_roles;
    email_verified_at = if input.email_verified then some now else none;
    password_reset_token = none;
    password_reset_expires_at = none;
    email_verification_token = none;
    password_changed_at = if ctx.tracks_changes then some now else none;
  }

  unfoldable pub create : String → CreateAccountInput → ℕ → StoreWorld → CreateResult × StoreWorld
  unfolding assert_acceptable
  create id input now w = elim (policy_error input.password) [
    | some e ↦ (policy e, w)
    | none ↦ elim (db.insert (new_row id input now) w.users) [
      | none ↦ (insert_failed, w)
      | some users ↦ (created (new_row id input now), record w { users = users })
    ]
  ]

  abbrev imported_row : String → Text → ImportAccountInput → ℕ → UserRow
  imported_row id random input now = record {
    id = id;
    email = input.email;
    password = ctx.make random;
    full_name = input.full_name;
    global_roles = roles_or_none input.global_roles;
    email_verified_at = if input.email_verified then some now else none;
    password_reset_token = none;
    password_reset_expires_at = none;
    email_verification_token = none;
    password_changed_at = none;
  }

  -- `none` is an address that is taken, `some none` a throw of the insert. The hash of the source
  -- system is written as it is.
  unfoldable pub import_account :
      String → Text → ImportAccountInput → ℕ → StoreWorld → Option (Option UserRow) × StoreWorld
  import_account id random input now w = elim (find_by_email input.email w) [
    | some existing ↦ (none, w)
    | none ↦ elim (db.insert (imported_row id random input now) w.users) [
      | none ↦ (some none, w)
      | some users ↦
          let row = imported_row id random input now in
          if same input.password_hash [] then (some (some row), record w { users = users }) else (
            some (some (record row { password = input.password_hash })),
            save row (λ r. record r { password = input.password_hash })
                (record w { users = users }),
          )
    ]
  ]

  unfoldable pub set_global_roles : String → List String → StoreWorld → StoreWorld
  set_global_roles id roles w = elim (find_by_id id w) [
    | none ↦ w
    | some row ↦ save row (λ r. record r { global_roles = roles }) w
  ]

  pub data Change : Type 0 where
    threw : PolicyError → Change
    refused done : Change

  unfoldable pub change_password : String → Text → ℕ → StoreWorld → Change × StoreWorld
  unfolding assert_acceptable
  change_password id password now w = elim (find_by_id id w) [
    | none ↦ (refused, w)
    | some row ↦ elim (policy_error password) [
      | some e ↦ (threw e, w)
      | none ↦ (
        done,
        save row
            (λ r. record r { password = stored password; password_changed_at = changed_at now r })
            w,
      )
    ]
  ]
