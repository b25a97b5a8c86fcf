-- ===== src/Mfa/Tests.antt =====
-- The theorems on second factors at a concrete account.
use adonis_authkit.Prelude.{
  ◌≤◌, ◌≡◌, refl, true, false, Option, none, some, List, [], ◌∷◌, Text, codes, same, some_of, arith,
  if◌then◌else◌,
}
use adonis_authkit.Prelude.Integers.{ℤ, pos, negsuc}
use adonis_authkit.Prelude.Words.{trim}
use adonis_authkit.Db.{Table}
use adonis_authkit.Db.Memory.{memory}
use adonis_authkit.Mfa.{
  MfaState, MfaContext, upsert, get_mfa_state, started, start_totp_enrollment,
  confirm_totp_enrollment, verify_totp, consume_recovery_code,
}
use adonis_authkit.Mfa.Rows.{Attempt, totp, recovery_code}
use adonis_authkit.Mfa.Runs.{
  accepted_steps, IsIncreasing, accepted_steps-IsIncreasing, recovered, recovery_bound,
}
use adonis_authkit.Mfa.Recovery.{consume_recovery_code-once}
use adonis_authkit.Mfa.Lifecycle.{
  Seals, start_totp_enrollment-disables, confirm_totp_enrollment-enables,
}

abbrev db : Table MfaState
db = memory (λ a b. false)

-- The code `x` stands for the current step, `y` for the one before.
abbrev delta_of : Text → Option ℤ
delta_of code =
    if same code (codes "x")
    then some (pos 0)
    else if same code (codes "y")
    then some (negsuc 0)
    else none

abbrev ctx : MfaContext
ctx = record {
  seal_secret = λ s. s;
  open_secret = λ s. some s;
  sha256 = λ s. s;
  keyuri = λ email s. email;
  verify_token = λ code s now. same code (codes "x");
  check_delta = λ code s now. delta_of code;
  period = 30;
}

abbrev enrolled : List MfaState
enrolled =
    record {
      account_id = "1";
      totp_secret = some (codes "s");
      mfa_enabled_at = some 1;
      recovery_codes = some (codes "r1" ∷ codes "r2" ∷ []);
      last_totp_step = none;
    }
    ∷ []

abbrev attempts : List Attempt
attempts =
    totp (codes "x") 90000
    ∷ totp (codes "x") 95000
    ∷ recovery_code (codes "r1")
    ∷ recovery_code (codes "r1")
    ∷ totp (codes "y") 150000
    ∷ totp (codes "x") 150000
    ∷ []

run : Unit {0}
unfolding same trim upsert start_totp_enrollment confirm_totp_enrollment verify_totp
    consume_recovery_code accepted_steps recovered
run = tt

-- The second code is a replay.
steps : accepted_steps db ctx "1" attempts enrolled ≡ pos 3 ∷ pos 4 ∷ pos 5 ∷ []
unfolding run
steps = refl

recoveries : recovered db ctx "1" attempts enrolled ≡ 1
unfolding run
recoveries = refl

accepted_steps-IsIncreasing_example :
    IsIncreasing db ctx "1" none (accepted_steps db ctx "1" attempts enrolled)
accepted_steps-IsIncreasing_example = accepted_steps-IsIncreasing db ctx "1" attempts enrolled

recovery_bound_example : recovered db ctx "1" attempts enrolled ≤ 2
recovery_bound_example = recovery_bound db ctx "1" attempts enrolled

abbrev after_r1 : List MfaState
after_r1 = (consume_recovery_code db ctx "1" (codes " r1") enrolled).1

consume_recovery_code-once_run :
    ((consume_recovery_code db ctx "1" (codes " r1") after_r1).0 ≡ some false)
    × ((consume_recovery_code db ctx "1" (codes "r2") after_r1).0
        ≡ (consume_recovery_code db ctx "1" (codes "r2") enrolled).0)
unfolding run
consume_recovery_code-once_run =
    consume_recovery_code-once db ctx "1" (codes " r1") (codes "r2") enrolled refl refl

abbrev pending_row : List MfaState
pending_row = (start_totp_enrollment db ctx "1" (some (codes "a@x")) (codes "t") enrolled).1

enrolment-started :
    start_totp_enrollment db ctx "1" (some (codes "a@x")) (codes "t") enrolled
    ≡ (started (codes "t") (codes "a@x"), pending_row)
unfolding run
enrolment-started = refl

t-Seals : Seals db ctx "1" (codes "t")
t-Seals = record { opens = refl; sealed_text = refl; secret_text = refl }

start_totp_enrollment-disables_run :
    (get_mfa_state db ctx "1" pending_row ≡ (false, none))
    × (verify_totp db ctx "1" (codes "x") 9 pending_row ≡ (some false, pending_row))
    × (consume_recovery_code db ctx "1" (codes "x") pending_row ≡ (some false, pending_row))
start_totp_enrollment-disables_run =
    start_totp_enrollment-disables db ctx "1" (codes "a@x") (codes "t") (codes "a@x") enrolled
      pending_row enrolment-started (codes "x") 9

r3-trimmed : trim (codes "r3") ≡ codes "r3"
unfolding run
r3-trimmed = refl

r3-listed : some_of (same (codes "r3")) (codes "r3" ∷ []) ≡ true
unfolding run
r3-listed = refl

abbrev confirmed_answer : Option (Option (List Text)) × List MfaState
confirmed_answer =
    confirm_totp_enrollment db ctx "1" (codes "x") (codes "r3" ∷ []) 90000 pending_row

x-valid : ctx.verify_token (codes "x") (codes "t") 90000 ≡ true
unfolding run
x-valid = refl

confirm_totp_enrollment-enables_example :
    (confirmed_answer.0 ≡ some (some (codes "r3" ∷ [])))
    × (get_mfa_state db ctx "1" confirmed_answer.1 ≡ (true, some 90000))
    × ((consume_recovery_code db ctx "1" (codes "r3") confirmed_answer.1).0 ≡ some true)
confirm_totp_enrollment-enables_example =
    confirm_totp_enrollment-enables db ctx "1" (codes "a@x") (codes "t") (codes "a@x") (codes "x")
      (codes "r3") (codes "r3" ∷ []) 90000 enrolled pending_row t-Seals enrolment-started x-valid
      (omega arith) r3-listed r3-trimmed

-- The code that confirmed the enrolment is accepted once more.
code-replayed : (verify_totp db ctx "1" (codes "x") 90000 confirmed_answer.1).0 ≡ some true
unfolding run
code-replayed = refl
