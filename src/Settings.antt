-- ===== src/Settings.antt =====
-- Runtime settings with their defaults: the resolvers of
-- packages/authkit-server/src/host/runtime_toggles.ts and otp_lockout.ts.
use adonis_authkit.Prelude.{ℕ, Bool, true, false, Option, none, some}
use adonis_authkit.Prelude.Integers.{SettingNumber, floor_or}

-- A setting as it is read: absent, no plain object, an object, or a throw of the store.
pub data RawSetting (A : Type 0) : Type 0 where
  absent : RawSetting A
  no_object : RawSetting A
  object : A → RawSetting A
  throws : RawSetting A

abbrev pub bool_or : Bool → Option Bool → Bool
bool_or fallback none = fallback
bool_or fallback (some b) = b

pub record LockoutSetting : Type 0 where
  pub enabled : Option Bool
  pub max_attempts : Option SettingNumber
  pub window_sec : Option SettingNumber
  pub base_lockout_sec : Option SettingNumber
  pub max_lockout_sec : Option SettingNumber

pub record ResolvedLockout : Type 0 where
  pub enabled : Bool
  pub max_attempts : ℕ
  pub window_sec : ℕ
  pub base_lockout_sec : ℕ
  pub max_lockout_sec : ℕ

-- `defaults` is the static config, which `defineConfig` has filled in.
unfoldable pub resolve_effective_lockout :
    RawSetting LockoutSetting → ResolvedLockout → ResolvedLockout
resolve_effective_lockout (object s) defaults = record {
  enabled = bool_or defaults.enabled s.enabled;
  max_attempts = floor_or 1 defaults.max_attempts s.max_attempts;
  window_sec = floor_or 1 defaults.window_sec s.window_sec;
  base_lockout_sec = floor_or 1 defaults.base_lockout_sec s.base_lockout_sec;
  max_lockout_sec = floor_or 1 defaults.max_lockout_sec s.max_lockout_sec;
}
resolve_effective_lockout _ defaults = defaults

pub record OtpLockoutSetting : Type 0 where
  pub enabled : Option Bool
  pub max_attempts : Option SettingNumber
  pub unlock_ttl_hours : Option SettingNumber

pub record ResolvedOtpLockout : Type 0 where
  pub enabled : Bool
  pub max_attempts : ℕ
  pub unlock_ttl_hours : ℕ

abbrev pub otp_lockout_defaults : ResolvedOtpLockout
otp_lockout_defaults = record { enabled = true; max_attempts = 5; unlock_ttl_hours = 24 }

unfoldable pub resolve_effective_otp_lockout : RawSetting OtpLockoutSetting → ResolvedOtpLockout
resolve_effective_otp_lockout (object s) = record {
  enabled = bool_or true s.enabled;
  max_attempts = floor_or 1 5 s.max_attempts;
  unlock_ttl_hours = floor_or 1 24 s.unlock_ttl_hours;
}
resolve_effective_otp_lockout _ = otp_lockout_defaults

pub record PasswordExpirationSetting : Type 0 where
  pub enabled : Option Bool
  pub max_age_days : Option SettingNumber

pub record ResolvedPasswordExpiration : Type 0 where
  pub enabled : Bool
  pub max_age_days : ℕ

unfoldable pub resolve_effective_password_expiration :
    RawSetting PasswordExpirationSetting → ResolvedPasswordExpiration
resolve_effective_password_expiration (object s) = record {
  enabled = bool_or false s.enabled;
  max_age_days = floor_or 1 90 s.max_age_days;
}
resolve_effective_password_expiration _ = record { enabled = false; max_age_days = 90 }

pub record AccountExpirationSetting : Type 0 where
  pub enabled : Option Bool
  pub inactive_days : Option SettingNumber
  pub warn_days : Option SettingNumber

pub record ResolvedAccountExpiration : Type 0 where
  pub enabled : Bool
  pub inactive_days : ℕ
  pub warn_days : ℕ

unfoldable pub resolve_effective_account_expiration :
    RawSetting AccountExpirationSetting → ResolvedAccountExpiration
resolve_effective_account_expiration (object s) = record {
  enabled = bool_or false s.enabled;
  inactive_days = floor_or 1 365 s.inactive_days;
  warn_days = floor_or 0 14 s.warn_days;
}
resolve_effective_account_expiration _ = record {
  enabled = false;
  inactive_days = 365;
  warn_days = 14;
}

pub record RequireVerifiedEmailSetting : Type 0 where
  pub enabled : Option Bool
  pub grace_days : Option SettingNumber

-- `none` is the throw of the store, which this resolver does not catch.
unfoldable pub resolve_effective_require_verified_email :
    Bool → RawSetting RequireVerifiedEmailSetting → Option Bool
resolve_effective_require_verified_email fallback (object s) = some (bool_or fallback s.enabled)
resolve_effective_require_verified_email fallback throws = none
resolve_effective_require_verified_email fallback _ = some fallback

pub record ResolvedRequireVerifiedEmail : Type 0 where
  pub enabled : Bool
  pub grace_days : ℕ

abbrev pub verified_full : Bool → Option Bool → Option SettingNumber → ResolvedRequireVerifiedEmail
verified_full fallback none grace = record { enabled = fallback; grace_days = 0 }
verified_full fallback (some enabled) grace = record {
  enabled = enabled;
  grace_days = floor_or 0 0 grace;
}

unfoldable pub resolve_effective_require_verified_email_full :
    Bool → RawSetting RequireVerifiedEmailSetting → ResolvedRequireVerifiedEmail
resolve_effective_require_verified_email_full fallback (object s) =
    verified_full fallback s.enabled s.grace_days
resolve_effective_require_verified_email_full fallback _ = record {
  enabled = fallback;
  grace_days = 0;
}
