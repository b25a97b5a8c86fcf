-- ===== src/TrustedDevice/Tests.antt =====
-- The theorem on trusted devices at a concrete cookie.
use adonis_authkit.Prelude.{◌≡◌, refl, true, false, none, some, codes, arith, List, [], ◌∷◌}
use adonis_authkit.Db.{Table}
use adonis_authkit.Db.Memory.{memory}
use adonis_authkit.Mfa.{
  MfaState, MfaContext, pending, empty_row, upsert, get_mfa_state, confirm_totp_enrollment,
}
use adonis_authkit.TrustedDevice.{
  resolve_trusted_devices, build_trusted_device_payload, is_trusted_device_valid,
}
use adonis_authkit.TrustedDevice.Revocation.{confirm_totp_enrollment-is_trusted_device_valid}

abbrev db : Table MfaState
db = memory (λ a b. false)

abbrev ctx : MfaContext
ctx = record {
  seal_secret = λ s. s;
  open_secret = λ s. some s;
  sha256 = λ s. s;
  keyuri = λ email s. email;
  verify_token = λ code s now. true;
  check_delta = λ code s now. none;
  period = 30;
}

abbrev enrolling : List MfaState
enrolling = pending (codes "s") (empty_row "u") ∷ []

enrolled :
    (confirm_totp_enrollment db ctx "u" (codes "1") (codes "r" ∷ []) 60 enrolling).0
    ≡ some (some (codes "r" ∷ []))
unfolding confirm_totp_enrollment upsert
enrolled = refl

still_trusted :
    is_trusted_device_valid
      (some (build_trusted_device_payload "u" (codes "d") resolve_trusted_devices 60))
      "u"
      (some 60)
      100
    ≡ true
unfolding is_trusted_device_valid build_trusted_device_payload
still_trusted = refl

confirm_totp_enrollment-is_trusted_device_valid_example :
    is_trusted_device_valid
      (some (build_trusted_device_payload "u" (codes "d") resolve_trusted_devices 50))
      "u"
      (get_mfa_state db ctx "u"
        (confirm_totp_enrollment db ctx "u" (codes "1") (codes "r" ∷ []) 60 enrolling).1).1
      100
    ≡ false
confirm_totp_enrollment-is_trusted_device_valid_example =
    confirm_totp_enrollment-is_trusted_device_valid db ctx "u" (codes "1") (codes "r" ∷ []) 60 50
      100 enrolling "u" "u" (codes "d") resolve_trusted_devices enrolled (omega arith)
