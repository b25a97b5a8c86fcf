-- ===== src/TrustedDevice/Revocation.antt =====
-- trusted_device.ts with mfa.ts: a new enrolment and the devices trusted before.
use adonis_authkit.Prelude.{
  ℕ, ◌+◌, ◌*◌, ◌≤◌, ◌<◌, ◌≡◌, ◌↔◌, refl, true, false, some, String, Text, eq_iff, arith,
}
use adonis_authkit.TrustedDevice.{
  ResolvedTrustedDevicesConfig, build_trusted_device_payload, is_trusted_device_valid,
}
use adonis_authkit.Prelude.{List, Option-cases, Bool-cases, inl, inr, map}
use adonis_authkit.Db.{Table}
use adonis_authkit.Mfa.{
  MfaState, MfaContext, read, upsert, confirmed, secret_of, get_mfa_state, confirm_totp_enrollment,
}
use adonis_authkit.Mfa.Rows.{read-upsert}

-- A device that was trusted at some time is trusted later exactly for its account, for the days of
-- the config, and unless the second factor was enabled in between.
pub is_trusted_device_valid_iff :
    (account_id other : String) (device_id : Text) (cfg : ResolvedTrustedDevicesConfig)
    (now later enabled_at : ℕ)
    → (is_trusted_device_valid
          (some (build_trusted_device_payload account_id device_id cfg now))
          other
          (some enabled_at)
          later
        ≡ true)
      ↔ ((account_id ≡ other) × (later < now + cfg.days * 86400000) × (enabled_at ≤ now))
unfolding build_trusted_device_payload is_trusted_device_valid
is_trusted_device_valid_iff account_id other device_id cfg now later enabled_at =
    ((λ e. ground (arith, eq_iff account_id other)), (λ h. ground (arith, eq_iff account_id other)))

module _ (db : Table MfaState) (ctx : MfaContext) (id : String) where
  -- The time of a confirmed enrolment is on record.
  confirm_totp_enrollment-enabled_at :
      (code : Text) (codes : List Text) (now : ℕ) (w : db.State)
      → (confirm_totp_enrollment db ctx id code codes now w).0 ≡ some (some codes)
      → (get_mfa_state db ctx id (confirm_totp_enrollment db ctx id code codes now w).1).1
        ≡ some now
  unfolding confirm_totp_enrollment
  confirm_totp_enrollment-enabled_at code codes now w e =
      elim (Option-cases (secret_of db ctx (read db ctx id w))) [
        | inl none_ ↦ absurd (cc (rw (confirm_totp_enrollment, none_) at e))
        | inr (secret, own) ↦ elim (Bool-cases (ctx.verify_token code secret now)) [
          | inr wrong ↦ absurd (cc (rw (confirm_totp_enrollment, own, wrong) at e))
          | inl right ↦
              elim (Option-cases (upsert db ctx id (confirmed now (map ctx.sha256 codes)) w)) [
                | inl threw ↦ absurd (cc (rw (confirm_totp_enrollment, own, right, threw) at e))
                | inr (u, saved) ↦
                    let (x, there) =
                      read-upsert db ctx id (confirmed now (map ctx.sha256 codes)) w u (λ y. refl)
                        saved in
                    rw (confirm_totp_enrollment, own, right, saved, there) refl
              ]
        ]
      ]

  -- A second factor that is enrolled anew ends the trust in every device that was trusted before:
  -- its cookie is refused from then on, for every account.
  pub confirm_totp_enrollment-is_trusted_device_valid :
      (code : Text) (codes : List Text) (now issued later : ℕ) (w : db.State)
      (account_id other : String) (device_id : Text) (cfg : ResolvedTrustedDevicesConfig)
      → (confirm_totp_enrollment db ctx id code codes now w).0 ≡ some (some codes)
      → issued < now
      → is_trusted_device_valid
          (some (build_trusted_device_payload account_id device_id cfg issued))
          other
          (get_mfa_state db ctx id (confirm_totp_enrollment db ctx id code codes now w).1).1
          later
        ≡ false
  unfolding build_trusted_device_payload is_trusted_device_valid
  confirm_totp_enrollment-is_trusted_device_valid code codes now issued later w account_id other
        device_id cfg e before =
      rw (confirm_totp_enrollment-enabled_at code codes now w e) (ground arith)
