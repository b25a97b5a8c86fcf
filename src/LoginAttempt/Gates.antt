-- ===== src/LoginAttempt/Gates.antt =====
-- login_attempt.ts: who is let in.
use adonis_authkit.Prelude.{
  ℕ, ◌≡◌, ◌↔◌, inl, inr, refl, Bool, false, some, String, arith, Option-cases,
}
use adonis_authkit.Limiter.{Limiter}
use adonis_authkit.AccountLockout.{LockoutKey, LockState, LockState-cases, is_locked}
use adonis_authkit.AccountStatus.{Account, LoginConfig, holds_for, is_email_unverified_block}
use adonis_authkit.LoginAttempt.{
  LoginAllowedInput, allowed, World, PasswordLoginInput, success, gate_input, lockout_of,
  password_gate, activity_gate, assert_login_allowed, attempt_password_login, check_account,
  finish_login,
}

module _ (l : Limiter LockoutKey) (loaded : Bool) (normalize : String → String) (cfg : LoginConfig)
    (now : ℕ) where
  -- Every gate, in the order in which the code asks.
  pub record IsAdmitted (account : Account) (input : PasswordLoginInput)
      (w : World l loaded normalize cfg now) : Type 0 where
    pub unlocked :
        is_locked l loaded normalize (lockout_of l loaded normalize cfg now input) input.email w
        ≡ LockState.unlocked
    pub verified : cfg.store.verify_credentials input.email input.password ≡ some account
    pub enabled : holds_for cfg.store.is_disabled false account.id ≡ false
    pub address : is_email_unverified_block cfg account.id input.settings now ≡ some false
    pub password : password_gate l loaded normalize cfg now account.id (gate_input input) ≡ false
    pub active : activity_gate l loaded normalize cfg now account.id (gate_input input) ≡ false

  finish_login-success_iff :
      (account a : Account) (input : PasswordLoginInput) (w : World l loaded normalize cfg now)
      → ((finish_login l loaded normalize cfg now account input w).0 ≡ success a) ↔ (
          (account ≡ a)
          × (password_gate l loaded normalize cfg now account.id (gate_input input) ≡ false)
          × (activity_gate l loaded normalize cfg now account.id (gate_input input) ≡ false))
  unfolding finish_login
  finish_login-success_iff account a input w = ((λ e. ground arith), (λ e. ground arith))

  check_account-success_iff :
      (account a : Account) (input : PasswordLoginInput) (w : World l loaded normalize cfg now)
      → ((check_account l loaded normalize cfg now account input w).0 ≡ some (success a)) ↔ (
          (account ≡ a)
          × (holds_for cfg.store.is_disabled false account.id ≡ false)
          × (is_email_unverified_block cfg account.id input.settings now ≡ some false)
          × (password_gate l loaded normalize cfg now account.id (gate_input input) ≡ false)
          × (activity_gate l loaded normalize cfg now account.id (gate_input input) ≡ false))
  unfolding check_account
  check_account-success_iff account a input w = ((λ e. ground arith), (λ e. ground arith))

  -- A password login succeeds for an account exactly when the address is not locked, the store
  -- knows the password for that account, the account is not disabled, the gate of the verified
  -- address is open, and neither its password nor the account has expired.
  pub attempt_password_login-success_iff :
      (a : Account) (input : PasswordLoginInput) (w : World l loaded normalize cfg now)
      → ((attempt_password_login l loaded normalize cfg now input w).0 ≡ some (success a))
        ↔ IsAdmitted a input w
  unfolding attempt_password_login
  attempt_password_login-success_iff a input w = (
    λ e.
        elim (LockState-cases (
          is_locked l loaded normalize (lockout_of l loaded normalize cfg now input) input.email
            w)) [
              | inr (n, shut) ↦ absurd (cc (rw (attempt_password_login, shut) at e))
              | inl open_ ↦
                  elim (Option-cases (cfg.store.verify_credentials input.email input.password)) [
                    | inl wrong ↦ absurd (cc (rw (attempt_password_login, open_, wrong) at e))
                    | inr (account, right) ↦
                        let (same_account, enabled, address, password, active) =
                          (check_account-success_iff account a input w).0
                            (rw (attempt_password_login, open_, right) at e) in
                        rw (← same_account) (record {
                          unlocked = open_;
                          verified = right;
                          enabled = enabled;
                          address = address;
                          password = password;
                          active = active;
                        })
                  ]
            ],
    λ c.
        rw (attempt_password_login, c.unlocked, c.verified)
          ((check_account-success_iff a a input w).1
            (refl, c.enabled, c.address, c.password, c.active)),
  )

  -- The gates of the flows without a password let an account through exactly when it is not
  -- disabled, its password has not expired, where the flow has one, and the account has not
  -- expired; then nothing is recorded.
  pub assert_login_allowed_iff :
      (id : String) (input : LoginAllowedInput) (w : World l loaded normalize cfg now)
      → (assert_login_allowed l loaded normalize cfg now id input w ≡ (allowed, w)) ↔ (
          (holds_for cfg.store.is_disabled false id ≡ false)
          × (password_gate l loaded normalize cfg now id input ≡ false)
          × (activity_gate l loaded normalize cfg now id input ≡ false))
  unfolding assert_login_allowed
  assert_login_allowed_iff id input w = ((λ e. ground arith), (λ e. ground arith))
