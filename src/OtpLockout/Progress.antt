-- ===== src/OtpLockout/Progress.antt =====
-- otp_lockout.ts: how failures lock the factor, over a limiter that answers, and that a limiter that
-- fails locks nobody out.
use adonis_authkit.Prelude.{
  ℕ, suc, ◌*◌, ◌<◌, ◌≡◌, inl, inr, refl, Bool, true, false, Option, some, ◌∷◌, ◌∙◌, if◌then◌else◌,
  ltb, leb, str_eq, String, arith, Bool-cases, ltb→lt, sym,
}
use adonis_authkit.Settings.{ResolvedOtpLockout}
use adonis_authkit.Audit.{otp_locked}
use adonis_authkit.Limiter.{Limiter, Works}
use adonis_authkit.OtpLockout.{
  OtpKey, fail_store, fail_key, lock_key, OtpWorld, is_locked, record_failure, count_failure,
  lock_factor, clear_failures, unlock,
}

not-leb : (a b : ℕ) → a < b → leb b a ≡ false
not-leb a b h = ground arith

le-leb : (a b : ℕ) → ltb a b ≡ false → leb b a ≡ true
le-leb a b h = ground arith

module _ (l : Limiter OtpKey) (w : Works OtpKey l) (cfg : ResolvedOtpLockout) (id : String)
    (ip : Option String) (named : str_eq id "" ≡ false) (on : cfg.enabled ≡ true) where
  abbrev pub World : Type 0
  World = OtpWorld l true cfg

  abbrev pub fails : World → ℕ
  fails s = w.consumed (fail_key id) s.limiter

  abbrev pub fail : World → Bool × World
  fail s = record_failure l true cfg id (some ip) s

  pub is_locked_lem : (s : World) → is_locked l true cfg id s ≡ w.blocked (lock_key id) s.limiter
  unfolding is_locked
  is_locked_lem s = rw (is_locked, on, named, w.is_blocked_lem) refl

  -- The lock stands after the count is deleted.
  shut_after :
      (s : World)
      → w.blocked (lock_key id) (
          w.after_delete (fail_key id) (
            w.after_block
              (lock_key id)
              (cfg.unlock_ttl_hours * 3600)
              (w.after_increment (fail_store cfg) (fail_key id) s.limiter)))
        ≡ true
  shut_after s = w.blocked_delete_other _ _ _ (λ e. cc) ∙ w.blocked_block _ _ _

  -- A failure of the second factor of an account that is not locked, with the lockout on and a
  -- limiter that answers. Below the limit it is counted, and nothing is locked or recorded; the
  -- failure that reaches the limit locks the factor, forgets the count and records one
  -- `otp.locked`. The result says whether the factor is locked now.
  pub record_failure_lem :
      (s : World)
      → is_locked l true cfg id s ≡ false
      → let t = (fail s).1 in
        ((fail s).0 ≡ is_locked l true cfg id t)
        × (is_locked l true cfg id t ≡ leb cfg.max_attempts (suc (fails s)))
        × (fails t ≡ (if leb cfg.max_attempts (suc (fails s)) then 0 else suc (fails s)))
        × (t.audit ≡ (
            if leb cfg.max_attempts (suc (fails s))
            then otp_locked id ip cfg.max_attempts ∷ s.audit
            else s.audit))
  unfolding record_failure
  record_failure_lem s free =
      let open_ : w.blocked (lock_key id) s.limiter ≡ false = sym (is_locked_lem s) ∙ free in
      elim (Bool-cases (ltb (suc (fails s)) cfg.max_attempts)) [
        | inl below ↦
            rw
              (
                is_locked_lem,
                record_failure,
                on,
                named,
                w.is_blocked_lem,
                open_,
                count_failure,
                w.increment_lem,
                below,
                not-leb _ _ (ltb→lt _ _ below),
                w.blocked_increment,
                open_,
              )
              (refl, refl, w.consumed_increment _ _ _, refl)
        | inr reached ↦
            rw
              (
                is_locked_lem,
                record_failure,
                on,
                named,
                w.is_blocked_lem,
                open_,
                count_failure,
                w.increment_lem,
                reached,
                le-leb _ _ reached,
                lock_factor,
                w.block_lem,
                w.delete_lem,
              )
              (sym (shut_after s), shut_after s, w.consumed_delete _ _, refl)
      ]

  -- With the lockout on and a limiter that answers, unlocking lifts the lock and forgets the
  -- failures; the clearing after a right code leaves the lock as it is.
  pub unlock_lem :
      (s : World)
      → (is_locked l true cfg id (unlock l true cfg id s) ≡ false)
        × (fails (unlock l true cfg id s) ≡ 0)
        × (is_locked l true cfg id (clear_failures l true cfg id s) ≡ is_locked l true cfg id s)
  unfolding unlock clear_failures
  unlock_lem s =
      rw
        (
          is_locked_lem, is_locked_lem, is_locked_lem, unlock, clear_failures, on, named,
          w.delete_lem, w.delete_lem,
        )
        (
          w.blocked_delete _ _,
          w.consumed_delete_other _ _ _ (λ e. cc) ∙ w.consumed_delete _ _,
          w.blocked_delete_other _ _ _ (λ e. cc),
        )
