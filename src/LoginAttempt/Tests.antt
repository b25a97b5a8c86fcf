-- ===== src/LoginAttempt/Tests.antt =====
-- Logins at concrete accounts, over a limiter in memory.
use adonis_authkit.Prelude.{
  ℕ, ◌≡◌, ◌↔◌, refl, true, false, none, some, List, [], ◌∷◌, String, str_eq, arith, if◌then◌else◌,
  ◌&&◌,
}
use adonis_authkit.AccountLockout.{is_locked, compute_lockout_sec}
use adonis_authkit.AccountLockout.Tests.{limiter, works, config, lower, fresh}
use adonis_authkit.AccountStatus.{
  Account, AccountStore, answer, LoginConfig, is_email_unverified_block,
}
use adonis_authkit.LoginAttempt.{
  World, PasswordLoginInput, success, locked, gate_input, allowed, attempt_password_login,
  assert_login_allowed, check_account, assert_account_enabled, assert_account_not_expired,
  finish_login, password_gate, activity_gate,
}
use adonis_authkit.LoginAttempt.Gates.{
  IsAdmitted, attempt_password_login-success_iff, assert_login_allowed_iff,
}
use adonis_authkit.LoginAttempt.BruteForce.{later, guesses, guesses-locked}

abbrev ann : Account
ann = record { id = "ann"; email = "ann" }

abbrev store : AccountStore
store = record {
  verify_credentials = λ email p. if str_eq email "ann" && str_eq p "right" then some ann else none;
  is_disabled = some (λ id. str_eq id "dan");
  is_email_verified = none;
  password_changed_at = none;
  created_at = λ id. none;
}

abbrev cfg : LoginConfig
cfg = record {
  lockout = config;
  require_verified_email = true;
  store = store;
  last_login = λ id. answer (some 5);
}

abbrev attempt : PasswordLoginInput
attempt = record { email = "ann"; password = "right"; ip = none; client_id = none; settings = none }

attempt_password_login-success_iff_example :
    ((attempt_password_login limiter true lower cfg 10 attempt fresh).0 ≡ some (success ann))
    ↔ IsAdmitted limiter true lower cfg 10 ann attempt fresh
attempt_password_login-success_iff_example =
    attempt_password_login-success_iff limiter true lower cfg 10 ann attempt fresh

lets_in : (attempt_password_login limiter true lower cfg 10 attempt fresh).0 ≡ some (success ann)
unfolding attempt_password_login is_locked check_account assert_account_enabled finish_login
    assert_account_not_expired is_email_unverified_block
lets_in = refl

assert_login_allowed_iff_run :
    (assert_login_allowed limiter true lower cfg 10 "dan" (gate_input attempt) fresh
      ≡ (allowed, fresh))
    ↔ ((str_eq "dan" "dan" ≡ false)
        × (password_gate limiter true lower cfg 10 "dan" (gate_input attempt) ≡ false)
        × (activity_gate limiter true lower cfg 10 "dan" (gate_input attempt) ≡ false))
assert_login_allowed_iff_run =
    assert_login_allowed_iff limiter true lower cfg 10 "dan" (gate_input attempt) fresh

-- Three wrong passwords in seven seconds lock the account for the right one, ten seconds later.
abbrev wrong : List (ℕ × String)
wrong = (0, "a") ∷ (5, "b") ∷ (2, "c") ∷ []

abbrev guessed : World limiter true lower cfg 10
guessed =
    later limiter works lower cfg 10 attempt refl refl 10
      (guesses limiter works lower cfg 10 attempt refl refl wrong fresh)

guesses-locked_example :
    (n : ℕ) × (attempt_password_login limiter true lower cfg 10 attempt guessed
      ≡ (some (locked n), guessed))
unfolding compute_lockout_sec
guesses-locked_example =
    guesses-locked limiter works lower cfg 10 attempt refl refl wrong 10 "right" fresh
      (refl, (refl, (refl, tt))) refl (omega arith) (omega arith) (λ some_. absurd (omega arith))
      (omega arith) (omega arith)
