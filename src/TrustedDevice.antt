-- ===== src/TrustedDevice.antt =====
-- The cookie of a trusted device: packages/authkit-server/src/host/trusted_device.ts.
pub mod Revocation
mod Tests
use adonis_authkit.Prelude.{
  ℕ, ◌+◌, ◌*◌, Bool, true, false, Option, none, some, String, str_eq, if◌then◌else◌, not, leb, ltb,
  Text,
}

pub record TrustedDevicePayload : Type 0 where
  pub account_id : String
  pub device_id : Text
  pub iat : ℕ
  pub exp : ℕ

pub record ResolvedTrustedDevicesConfig : Type 0 where
  pub enabled : Bool
  pub days : ℕ

abbrev pub resolve_trusted_devices : ResolvedTrustedDevicesConfig
resolve_trusted_devices = record { enabled = true; days = 30 }

-- `device_id` is drawn.
unfoldable pub build_trusted_device_payload :
    String → Text → ResolvedTrustedDevicesConfig → ℕ → TrustedDevicePayload
build_trusted_device_payload account_id device_id cfg now = record {
  account_id = account_id;
  device_id = device_id;
  iat = now;
  exp = now + cfg.days * 24 * 60 * 60 * 1000;
}

abbrev pub issued_before : ℕ → Option ℕ → Bool
issued_before iat none = false
issued_before iat (some at) = ltb iat at

-- `none` is a cookie that is missing or not well formed.
unfoldable pub is_trusted_device_valid : Option TrustedDevicePayload → String → Option ℕ → ℕ → Bool
is_trusted_device_valid none account_id mfa_enabled_at now = false
is_trusted_device_valid (some p) account_id mfa_enabled_at now =
    if not (str_eq p.account_id account_id)
    then false
    else if leb p.exp now
    then false
    else if issued_before p.iat mfa_enabled_at
    then false
    else true
