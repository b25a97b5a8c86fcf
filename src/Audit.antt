-- ===== src/Audit.antt =====
-- The audit events that the modelled code records: packages/authkit-server/src/audit/audit_sink.ts.
-- A log is the list of events, the latest first.
use adonis_authkit.Prelude.{ℕ, String, Text, Option}

-- `clientId` is left out of an event where the flow has none, and may be null.
pub data AuditEvent : Type 0 where
  account_locked : String → Option String → ℕ → ℕ → AuditEvent
  otp_locked : String → Option String → ℕ → AuditEvent
  login_failure : String → Option String → Option (Option String) → AuditEvent
  login_failure_disabled : String → Option String → Option (Option String) → AuditEvent
  login_failure_unverified : String → Option String → Option (Option String) → AuditEvent
  password_expired_change_forced :
      String → String → Option String → Option (Option String) → AuditEvent
  account_expired_login_blocked :
      String → String → Option String → Option (Option String) → AuditEvent
  password_rehashed : String → AuditEvent
  impersonation : String → String → Option String → String → Option String → Text → AuditEvent
