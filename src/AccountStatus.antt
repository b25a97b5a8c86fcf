-- ===== src/AccountStatus.antt =====
-- Whether an account may log in, by its e-mail address, its password and its activity:
-- packages/authkit-server/src/host/login_attempt.ts, with what it asks of the configuration.
use adonis_authkit.Prelude.{
  ℕ, ◌+◌, ◌*◌, Bool, true, false, not, ◌&&◌, Option, none, some, ltb, leb, String,
}
use adonis_authkit.Settings.{
  RawSetting, LockoutSetting, ResolvedLockout, PasswordExpirationSetting,
  resolve_effective_password_expiration, AccountExpirationSetting,
  resolve_effective_account_expiration, RequireVerifiedEmailSetting,
  resolve_effective_require_verified_email, resolve_effective_require_verified_email_full,
}

pub record Account : Type 0 where
  pub id : String
  pub email : String

-- What a login asks of the account store. A capability that the store lacks is `none`; a date is
-- `none` where it is absent or unreadable.
pub record AccountStore : Type 0 where
  pub verify_credentials : String → String → Option Account
  pub is_disabled : Option (String → Bool)
  pub is_email_verified : Option (String → Bool)
  pub password_changed_at : Option (String → Option ℕ)
  pub created_at : String → Option ℕ

-- The last `login.success` of an account in the audit log: the log cannot be queried, the query
-- fails, or its answer. An answer with no event, or with no readable date, is `none`.
pub data LastLogin : Type 0 where
  not_queryable query_error : LastLogin
  answer : Option ℕ → LastLogin

pub record LoginSettings : Type 0 where
  pub lockout : RawSetting LockoutSetting
  pub require_verified_email : RawSetting RequireVerifiedEmailSetting
  pub password_expiration : RawSetting PasswordExpirationSetting
  pub account_expiration : RawSetting AccountExpirationSetting

pub record LoginConfig : Type 0 where
  pub lockout : ResolvedLockout
  pub require_verified_email : Bool
  pub store : AccountStore
  pub last_login : String → LastLogin

abbrev pub day_ms : ℕ
day_ms = 86400000

-- The account was created within the days of grace.
abbrev pub in_grace : ℕ → Option ℕ → ℕ → Bool
in_grace days none now = false
in_grace days (some created) now = ltb 0 days && leb now (created + days * day_ms)

abbrev pub holds_for : Option (String → Bool) → Bool → String → Bool
holds_for none fallback id = fallback
holds_for (some f) fallback id = f id

-- `fallback` is the static config.
abbrev pub requires_verified : Bool → Option LoginSettings → Option Bool
requires_verified fallback none = some fallback
requires_verified fallback (some s) =
    resolve_effective_require_verified_email fallback s.require_verified_email

abbrev pub grace_days : Bool → Option LoginSettings → ℕ
grace_days fallback none = 0
grace_days fallback (some s) =
    (resolve_effective_require_verified_email_full fallback s.require_verified_email).grace_days

-- `none` is a throw.
unfoldable pub is_email_unverified_block :
    LoginConfig → String → Option LoginSettings → ℕ → Option Bool
is_email_unverified_block cfg id settings now =
    elim (requires_verified cfg.require_verified_email settings) [
      | none ↦ none
      | some required ↦ some (
          required
          && not (holds_for cfg.store.is_email_verified true id)
          && not (
              in_grace (grace_days cfg.require_verified_email settings) (cfg.store.created_at id)
                now))
    ]

-- A password whose date is unknown counts as expired.
abbrev pub older_than : ℕ → Option ℕ → ℕ → Bool
older_than days none now = true
older_than days (some changed) now = ltb (changed + days * day_ms) now

unfoldable pub is_password_expired : LoginConfig → String → LoginSettings → ℕ → Bool
is_password_expired cfg id settings now =
    let expiration = resolve_effective_password_expiration settings.password_expiration in
    elim cfg.store.password_changed_at [
      | none ↦ false
      | some changed_at ↦
          expiration.enabled && older_than expiration.max_age_days (changed_at id) now
    ]

-- No answer, and an account that never logged in, count as active.
abbrev pub inactive : ℕ → LastLogin → ℕ → Bool
inactive days (answer (some last)) now = ltb (last + days * day_ms) now
inactive days _ now = false

unfoldable pub is_account_expired : LoginConfig → String → LoginSettings → ℕ → Bool
is_account_expired cfg id settings now =
    let expiration = resolve_effective_account_expiration settings.account_expiration in
    expiration.enabled && inactive expiration.inactive_days (cfg.last_login id) now
