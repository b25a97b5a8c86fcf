-- ===== src/OtpLockout/Tests.antt =====
-- The lockout of the second factor over a limiter in memory.
use adonis_authkit.Prelude.{
  ◌≡◌, ◌≢◌, refl, Bool, true, false, none, some, [], ◌∷◌, str_eq, eq_iff, ap, sym, Bool-cases, inl,
  inr, leb,
}
use adonis_authkit.Settings.{ResolvedOtpLockout}
use adonis_authkit.Audit.{otp_locked}
use adonis_authkit.Limiter.{Limiter, Works}
use adonis_authkit.Limiter.Memory
use adonis_authkit.Limiter.Memory.{Held}
use adonis_authkit.OtpLockout.{
  OtpKey, fail_key, lock_key, OtpWorld, is_locked, record_failure, clear_failures, unlock,
}
use adonis_authkit.OtpLockout.Progress.{record_failure_lem, unlock_lem}

unfoldable same : OtpKey → OtpKey → Bool
same (fail_key a) (fail_key b) = str_eq a b
same (lock_key a) (lock_key b) = str_eq a b
same _ _ = false

same_refl : (k : OtpKey) → same k k ≡ true
unfolding same
same_refl (fail_key a) = (eq_iff a a).1 refl
same_refl (lock_key a) = (eq_iff a a).1 refl

same_sound : (k j : OtpKey) → same k j ≡ true → j ≡ k
unfolding same
same_sound (fail_key a) (fail_key b) e = ap fail_key (sym ((eq_iff a b).0 e))
same_sound (lock_key a) (lock_key b) e = ap lock_key (sym ((eq_iff a b).0 e))
same_sound _ _ e = absurd (cc e)

same_other : (k j : OtpKey) → j ≢ k → same k j ≡ false
same_other k j ne = elim (Bool-cases (same k j)) [
  | inl e ↦ absurd (ne (same_sound k j e))
  | inr e ↦ e
]

abbrev limiter : Limiter OtpKey
limiter = Memory.memory same

abbrev works : Works OtpKey limiter
works = Memory.works same same_refl same_other

abbrev config : ResolvedOtpLockout
config = record { enabled = true; max_attempts = 2; unlock_ttl_hours = 24 }

-- One failure so far.
abbrev once : OtpWorld limiter true config
once = record {
  limiter = record {
    counted = λ k. elim k [ fail_key a ↦ 1 | lock_key a ↦ 0 ];
    shut = λ k. false;
    window = λ k. 60;
    left = λ k. 0;
  };
  audit = [];
}

abbrev twice : Bool × OtpWorld limiter true config
twice = record_failure limiter true config "ann" (some none) once

once_open : is_locked limiter true config "ann" once ≡ false
unfolding is_locked
once_open = refl

record_failure_lem_run :
    (twice.0 ≡ is_locked limiter true config "ann" twice.1)
    × (is_locked limiter true config "ann" twice.1 ≡ leb 2 2)
    × (twice.1.limiter.counted (fail_key "ann") ≡ 0)
    × (twice.1.audit ≡ otp_locked "ann" none 2 ∷ [])
record_failure_lem_run = record_failure_lem limiter works config "ann" none refl refl once once_open

unlock_lem_run :
    (is_locked limiter true config "ann" (unlock limiter true config "ann" twice.1) ≡ false)
    × ((unlock limiter true config "ann" twice.1).limiter.counted (fail_key "ann") ≡ 0)
    × (is_locked limiter true config "ann" (clear_failures limiter true config "ann" twice.1)
        ≡ is_locked limiter true config "ann" twice.1)
unlock_lem_run = unlock_lem limiter works config "ann" none refl refl twice.1
