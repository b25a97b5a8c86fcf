-- ===== src/OtpLockout.antt =====
-- Lockout of the one-time-password factor: packages/authkit-server/src/host/otp_lockout.ts. Only the
-- second factor is locked, by the account's id, until its time is over or `unlock` is called.
pub mod Progress
mod Tests
use adonis_authkit.Prelude.{
  ◌*◌, Bool, true, false, not, ◌||◌, Option, none, some, List, ◌∷◌, if◌then◌else◌, ltb, str_eq,
  String,
}
use adonis_authkit.Settings.{ResolvedOtpLockout}
use adonis_authkit.Audit.{AuditEvent, otp_locked}
use adonis_authkit.Limiter.{Limiter, StoreOptions}

-- The keys `authkit_otp_fail:…` and `authkit_otp_lock:…`.
pub data OtpKey : Type 0 where
  fail_key lock_key : String → OtpKey

abbrev pub fail_store : ResolvedOtpLockout → StoreOptions
fail_store cfg = record { requests = cfg.max_attempts; duration = cfg.unlock_ttl_hours * 3600 * 2 }

abbrev pub lock_store : ResolvedOtpLockout → StoreOptions
lock_store cfg = record { requests = 1; duration = cfg.unlock_ttl_hours * 3600 }

module _ (l : Limiter OtpKey) (loaded : Bool) (cfg : ResolvedOtpLockout) where
  pub record OtpWorld : Type 0 where
    pub limiter : l.State
    pub audit : List AuditEvent

  -- Off, no limiter, or no account.
  abbrev pub idle : String → Bool
  idle id = not cfg.enabled || not loaded || str_eq id ""

  abbrev pub with_limiter : l.State → OtpWorld → OtpWorld
  with_limiter t w = record w { limiter = t }

  -- A throw of the limiter counts as not locked.
  unfoldable pub is_locked : String → OtpWorld → Bool
  is_locked id w =
      if idle id then false else elim (l.is_blocked (lock_store cfg) (lock_key id) w.limiter) [
        | none ↦ false
        | some shut ↦ shut
      ]

  abbrev pub audited : Option (Option String) → String → OtpWorld → OtpWorld
  audited none id w = w
  audited (some ip) id w = record w { audit = otp_locked id ip cfg.max_attempts ∷ w.audit }

  -- Locks the factor. A throw ends it and leaves what was written.
  unfoldable pub lock_factor : String → Option (Option String) → OtpWorld → Bool × OtpWorld
  lock_factor id audit w =
      elim (l.block (lock_store cfg) (lock_key id) (cfg.unlock_ttl_hours * 3600) w.limiter) [
        | none ↦ (false, w)
        | some t ↦ elim (l.delete (fail_store cfg) (fail_key id) t) [
          | none ↦ (false, with_limiter t w)
          | some u ↦ (true, audited audit id (with_limiter u w))
        ]
      ]

  unfoldable pub count_failure : String → Option (Option String) → OtpWorld → Bool × OtpWorld
  unfolding lock_factor
  count_failure id audit w = elim (l.increment (fail_store cfg) (fail_key id) w.limiter) [
    | none ↦ (false, w)
    | some (consumed, t) ↦
        if ltb consumed cfg.max_attempts
        then (false, with_limiter t w)
        else lock_factor id audit (with_limiter t w)
  ]

  -- Whether the factor is locked after the failure.
  unfoldable pub record_failure : String → Option (Option String) → OtpWorld → Bool × OtpWorld
  unfolding count_failure
  record_failure id audit w =
      if idle id then (false, w) else elim (l.is_blocked (lock_store cfg) (lock_key id) w.limiter) [
        | none ↦ (false, w)
        | some true ↦ (true, w)
        | some false ↦ count_failure id audit w
      ]

  unfoldable pub clear_failures : String → OtpWorld → OtpWorld
  clear_failures id w =
      if idle id then w else elim (l.delete (fail_store cfg) (fail_key id) w.limiter) [
        | none ↦ w
        | some t ↦ with_limiter t w
      ]

  unfoldable pub unlock : String → OtpWorld → OtpWorld
  unlock id w = if idle id then w else elim (l.delete (fail_store cfg) (fail_key id) w.limiter) [
    | none ↦ w
    | some t ↦ elim (l.delete (lock_store cfg) (lock_key id) t) [
      | none ↦ with_limiter t w
      | some u ↦ with_limiter u w
    ]
  ]
