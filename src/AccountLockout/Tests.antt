-- ===== src/AccountLockout/Tests.antt =====
-- Runs of the lockout over a limiter in memory, and its theorems at concrete accounts.
use adonis_authkit.Prelude.{
  ℕ, List, ◌∷◌, length, ◌≤◌, ◌<◌, ◌≡◌, ◌≢◌, ◌↔◌, refl, Bool, true, false, none, some, [], String,
  str_eq, eq_iff, arith, inl, inr, Bool-cases, ap, sym,
}
use adonis_authkit.Settings.{ResolvedLockout}
use adonis_authkit.Limiter.{Limiter, Works}
use adonis_authkit.Limiter.Memory
use adonis_authkit.Limiter.Memory.{Held}
use adonis_authkit.AccountLockout.{
  LockoutKey, fail_key, lock_key, count_key, LockoutWorld, compute_lockout_sec, unlocked, is_locked,
  clear_failures, at_most,
}
use adonis_authkit.AccountLockout.Progress.{
  later, compute_lockout_sec_bounds, failures, failures-lock_iff, clear_failures_lem,
}

unfoldable pub same : LockoutKey → LockoutKey → Bool
same (fail_key a) (fail_key b) = str_eq a b
same (lock_key a) (lock_key b) = str_eq a b
same (count_key a) (count_key b) = str_eq a b
same _ _ = false

pub same_refl : (k : LockoutKey) → same k k ≡ true
unfolding same
same_refl (fail_key a) = (eq_iff a a).1 refl
same_refl (lock_key a) = (eq_iff a a).1 refl
same_refl (count_key a) = (eq_iff a a).1 refl

same_sound : (k j : LockoutKey) → same k j ≡ true → j ≡ k
unfolding same
same_sound (fail_key a) (fail_key b) e = ap fail_key (sym ((eq_iff a b).0 e))
same_sound (lock_key a) (lock_key b) e = ap lock_key (sym ((eq_iff a b).0 e))
same_sound (count_key a) (count_key b) e = ap count_key (sym ((eq_iff a b).0 e))
same_sound _ _ e = absurd (cc e)

pub same_other : (k j : LockoutKey) → j ≢ k → same k j ≡ false
same_other k j ne = elim (Bool-cases (same k j)) [
  | inl e ↦ absurd (ne (same_sound k j e))
  | inr e ↦ e
]

abbrev pub limiter : Limiter LockoutKey
limiter = Memory.memory same

abbrev pub works : Works LockoutKey limiter
works = Memory.works same same_refl same_other

abbrev pub config : ResolvedLockout
config = record {
  enabled = true;
  max_attempts = 3;
  window_sec = 900;
  base_lockout_sec = 60;
  max_lockout_sec = 3600;
}

abbrev pub lower : String → String
lower s = s

abbrev pub fresh : LockoutWorld limiter true lower
fresh = record {
  limiter = record { counted = λ k. 0; shut = λ k. false; window = λ k. 0; left = λ k. 0 };
  audit = [];
}

-- The third lock lasts four times the base time, and the tenth the maximum.
backoff : (compute_lockout_sec 3 config ≡ 240) × (compute_lockout_sec 10 config ≡ 3600)
unfolding compute_lockout_sec
backoff = (refl, refl)

compute_lockout_sec_bounds_run :
    (compute_lockout_sec 3 config ≤ 3600)
    × (compute_lockout_sec 3 config ≤ compute_lockout_sec 4 config)
    × (compute_lockout_sec 1 config ≡ at_most 60 3600)
compute_lockout_sec_bounds_run = compute_lockout_sec_bounds 3 config

-- Three failures in five seconds.
abbrev waits : List ℕ
waits = 0 ∷ 2 ∷ 3 ∷ []

abbrev failed : LockoutWorld limiter true lower
failed = failures limiter works lower config "ann" (some none) refl refl waits fresh

failures-lock_iff_example :
    ((is_locked limiter true lower config "ann" failed ≡ unlocked) ↔ (length waits < 3))
    × (is_locked limiter true lower config "ann"
          (later limiter works lower config "ann" (some none) refl refl 3600 failed)
        ≡ unlocked)
unfolding compute_lockout_sec
failures-lock_iff_example =
    failures-lock_iff limiter works lower config "ann" (some none) refl refl waits 3600 fresh refl
      refl (omega arith) (omega arith) (omega arith) (omega arith)

clear_failures_lem_run :
    let t = clear_failures limiter true lower config "ann" failed in
    (t.limiter.counted (fail_key "ann") ≡ 0)
    × (t.limiter.shut (lock_key "ann") ≡ false)
    × (t.limiter.counted (count_key "ann") ≡ failed.limiter.counted (count_key "ann"))
clear_failures_lem_run =
    clear_failures_lem limiter works lower config "ann" (some none) refl refl failed
