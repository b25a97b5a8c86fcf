-- ===== src/LoginAttempt.antt =====
-- The gates of a login: packages/authkit-server/src/host/login_attempt.ts.
pub mod Gates
pub mod BruteForce
mod Tests
use adonis_authkit.AccountStatus.{
  Account, AccountStore, LastLogin, LoginConfig, LoginSettings, answer, day_ms, grace_days,
  holds_for, in_grace, inactive, is_account_expired, is_email_unverified_block, is_password_expired,
  not_queryable, older_than, query_error, requires_verified,
}
use adonis_authkit.Prelude.{
  ℕ, ◌+◌, ◌*◌, ◌≡◌, Bool, true, false, not, ◌&&◌, ◌||◌, Option, none, some, List, [], ◌∷◌,
  if◌then◌else◌, ltb, leb, String,
}
use adonis_authkit.Settings.{
  RawSetting, LockoutSetting, ResolvedLockout, resolve_effective_lockout, PasswordExpirationSetting,
  resolve_effective_password_expiration, AccountExpirationSetting,
  resolve_effective_account_expiration, RequireVerifiedEmailSetting,
  resolve_effective_require_verified_email, resolve_effective_require_verified_email_full,
}
use adonis_authkit.Audit.{
  AuditEvent, login_failure, login_failure_disabled, login_failure_unverified,
  password_expired_change_forced, account_expired_login_blocked,
}
use adonis_authkit.Limiter.{Limiter}
use adonis_authkit.AccountLockout.{
  LockoutKey, LockoutWorld, LockState, locked_for, is_locked, record_failure, clear_failures,
}

pub data AccountStatusReason : Type 0 where
  disabled password_expired account_expired : AccountStatusReason

pub data LoginAllowedResult : Type 0 where
  allowed : LoginAllowedResult
  refused : AccountStatusReason → LoginAllowedResult

-- `client_id` is `undefined` where it is `none`.
pub record LoginAllowedInput : Type 0 where
  pub email : String
  pub ip : Option String
  pub client_id : Option (Option String)
  pub settings : Option LoginSettings
  pub passwordless : Bool

pub data PasswordLoginResult : Type 0 where
  success : Account → PasswordLoginResult
  locked : ℕ → PasswordLoginResult
  bad_credentials : PasswordLoginResult
  is_disabled_account : PasswordLoginResult
  unverified : PasswordLoginResult
  password_is_expired : Account → PasswordLoginResult
  account_is_expired : PasswordLoginResult

pub record PasswordLoginInput : Type 0 where
  pub email : String
  pub password : String
  pub ip : Option String
  pub client_id : Option (Option String)
  pub settings : Option LoginSettings

abbrev pub gate_input : PasswordLoginInput → LoginAllowedInput
gate_input input = record {
  email = input.email;
  ip = input.ip;
  client_id = input.client_id;
  settings = input.settings;
  passwordless = false;
}

abbrev pub effective_lockout : LoginConfig → Option LoginSettings → ResolvedLockout
effective_lockout cfg none = cfg.lockout
effective_lockout cfg (some s) = resolve_effective_lockout s.lockout cfg.lockout

module _ (l : Limiter LockoutKey) (loaded : Bool) (normalize : String → String) (cfg : LoginConfig)
    (now : ℕ) where
  abbrev pub World : Type 0
  World = LockoutWorld l loaded normalize

  abbrev pub record_event : AuditEvent → World → World
  record_event e w = record w { audit = e ∷ w.audit }

  unfoldable pub assert_account_enabled :
      String → LoginAllowedInput → World → LoginAllowedResult × World
  assert_account_enabled id input w =
      if holds_for cfg.store.is_disabled false id
      then (
        refused disabled,
        record_event (login_failure_disabled input.email input.ip input.client_id) w,
      )
      else (allowed, w)

  abbrev pub password_gate : String → LoginAllowedInput → Bool
  password_gate id input = elim input.settings [
    | none ↦ false
    | some s ↦ not input.passwordless && is_password_expired cfg id s now
  ]

  abbrev pub activity_gate : String → LoginAllowedInput → Bool
  activity_gate id input = elim input.settings [
    | none ↦ false
    | some s ↦ is_account_expired cfg id s now
  ]

  unfoldable pub assert_account_not_expired :
      String → LoginAllowedInput → World → LoginAllowedResult × World
  assert_account_not_expired id input w =
      if password_gate id input
      then (
        refused password_expired,
        record_event (password_expired_change_forced id input.email input.ip input.client_id) w,
      )
      else (if activity_gate id input
          then (
            refused account_expired,
            record_event (account_expired_login_blocked id input.email input.ip input.client_id) w,
          )
          else (allowed, w))

  -- The gates of the flows without a password, and of an impersonation.
  unfoldable pub assert_login_allowed :
      String → LoginAllowedInput → World → LoginAllowedResult × World
  unfolding assert_account_enabled assert_account_not_expired
  assert_login_allowed id input w =
      let (result, w') = assert_account_enabled id input w in
      elim result [
        | refused reason ↦ (refused reason, w')
        | allowed ↦ assert_account_not_expired id input w'
      ]

  abbrev pub lockout_of : PasswordLoginInput → ResolvedLockout
  lockout_of input = effective_lockout cfg input.settings

  abbrev pub forget : PasswordLoginInput → World → World
  forget input w = clear_failures l loaded normalize (lockout_of input) input.email w

  abbrev pub after_expiry : Account → LoginAllowedResult → PasswordLoginResult
  after_expiry account allowed = success account
  after_expiry account (refused password_expired) = password_is_expired account
  after_expiry account (refused _) = account_is_expired

  -- After the e-mail check: the expiry gates, then the failures are forgotten.
  unfoldable pub finish_login : Account → PasswordLoginInput → World → PasswordLoginResult × World
  unfolding assert_account_not_expired
  finish_login account input w =
      let (result, w') = assert_account_not_expired account.id (gate_input input) w in
      (after_expiry account result, forget input w')

  -- The gates behind a correct password. `none` is a throw.
  unfoldable pub check_account :
      Account → PasswordLoginInput → World → Option PasswordLoginResult × World
  unfolding assert_account_enabled finish_login
  check_account account input w =
      let (enabled, w') = assert_account_enabled account.id (gate_input input) w in
      elim enabled [
        | refused _ ↦ (some is_disabled_account, w')
        | allowed ↦ elim (is_email_unverified_block cfg account.id input.settings now) [
          | none ↦ (none, w')
          | some true ↦ (
            some unverified,
            record_event (login_failure_unverified input.email input.ip input.client_id)
                (forget input w'),
          )
          | some false ↦ let (result, w'') = finish_login account input w' in (some result, w'')
        ]
      ]

  unfoldable pub wrong_password : PasswordLoginInput → World → World
  wrong_password input w =
      record_failure l loaded normalize (lockout_of input) input.email (some input.ip)
        (record_event (login_failure input.email input.ip input.client_id) w)

  unfoldable pub attempt_password_login :
      PasswordLoginInput → World → Option PasswordLoginResult × World
  unfolding check_account wrong_password
  attempt_password_login input w =
      elim (is_locked l loaded normalize (lockout_of input) input.email w) [
        | locked_for seconds ↦ (some (locked seconds), w)
        | LockState.unlocked ↦ elim (cfg.store.verify_credentials input.email input.password) [
          | none ↦ (some bad_credentials, wrong_password input w)
          | some account ↦ check_account account input w
        ]
      ]
