-- ===== src/Accounts/Tests.antt =====
-- The theorems on the account store at concrete accounts.
use adonis_authkit.Prelude.{
  ℕ, zero, suc, ◌+◌, ◌≤◌, ◌≡◌, ◌≢◌, refl, true, false, Option, none, some, List, [], ◌∷◌, ◌++◌,
  Text, codes, same, String, all, arith, same_sound, str_eq, eq_iff, Bool-cases, inl, inr, ap, sym,
  ◌∙◌, if◌then◌else◌,
}
use adonis_authkit.Prelude.Words.{split}
use adonis_authkit.Db.{Table}
use adonis_authkit.Db.Memory.{memory}
use adonis_authkit.OtpLogin.{hex_64, link_token_from_otp_url}
use adonis_authkit.OtpLogin.Toy.{strokes, toy, toy-PrintsNumbers, toy-digest}
use adonis_authkit.TokenHash.{
  is_digit, split_colon, raw_to_db_token, generate_hashed_token, generate_expiring_hashed_token,
  raw_to_expiring_db_token, parse_expiring_token_exp, split_expiring_raw,
}
use adonis_authkit.TokenHash.Deadline.{Hashes}
use adonis_authkit.Passwords.{
  one, Hooks, verify, assert_acceptable, apply_current_pepper, matching, resolve_peppers,
}
use adonis_authkit.Passwords.Policy.{check_password_policy, resolve_password_policy}
use adonis_authkit.Accounts.{
  rows, UserRow, StoreContext, StoreWorld, done, refused, verify_credentials, rehashed,
  change_password, find_by_email,
}
use adonis_authkit.Accounts.Tokens.{
  magic_link_prefix, consume_password_reset_token, consume_magic_link_token,
}
use adonis_authkit.Accounts.Emails.{
  mail_row, consume_email_verification_token, confirm_email_change, change_parts, apply_change,
}
use adonis_authkit.Accounts.Uses.{
  consume_password_reset_token-once, consume_password_reset_token-apart,
  consume_magic_link_token-once, is_spent,
}
use adonis_authkit.Accounts.Deadlines.{
  IsUnique, consume_email_verification_token-in_time, confirm_email_change-IsUnique,
}
use adonis_authkit.Accounts.SignIn.{
  IsHasher, change_password-verify_credentials, verify_credentials-loses_pepper,
}

abbrev db : Table UserRow
db = memory (λ a b. same a.email b.email)

digits-strokes : (n : ℕ) → all is_digit (strokes n) ≡ true
unfolding strokes
digits-strokes zero = refl
digits-strokes (suc n) = digits-strokes n

toy-Hashes : Hashes toy
toy-Hashes = record { digest = toy-digest; digits = digits-strokes }

abbrev hooks : Hooks
hooks = record { native_verify = λ h p. some (same h p); needs_rehash = λ h. some false }

abbrev ctx : StoreContext
ctx = record {
  js = toy;
  hmac = λ k s. k ++ s;
  passwords = (one (codes "p"), none);
  hooks = hooks;
  make = λ s. s;
  is_common = λ s. false;
  tracks_changes = true;
  email_verification_ttl_hours = none;
  email_change_ttl_hours = none;
}

ctx-IsHasher : IsHasher db ctx
ctx-IsHasher = record { checks = λ x y. refl }

run : Unit {0}
unfolding same strokes hex_64 split_colon raw_to_db_token generate_hashed_token
    generate_expiring_hashed_token raw_to_expiring_db_token parse_expiring_token_exp
    split_expiring_raw verify assert_acceptable apply_current_pepper matching resolve_peppers
    check_password_policy resolve_password_policy verify_credentials rehashed change_password
    consume_password_reset_token consume_magic_link_token consume_email_verification_token
    confirm_email_change change_parts apply_change link_token_from_otp_url split
run = tt

abbrev account : String → Text → Option Text → Option Text → UserRow
account id email reset mail = record {
  id = id;
  email = email;
  password = codes "secret77";
  full_name = none;
  global_roles = [];
  email_verified_at = none;
  password_reset_token = reset;
  password_reset_expires_at = some 10;
  email_verification_token = mail;
  password_changed_at = none;
}

abbrev world : List UserRow → StoreWorld db ctx
world users = record { users = users; audit = [] }

abbrev token : Text
token = codes "abc"

abbrev new_password : Text
new_password = codes "another-one"

abbrev resettable : StoreWorld db ctx
resettable = world (
    account "1" (codes "a@x") (some (toy.sha256 token)) none
    ∷ account "2" (codes "b@x") none none
    ∷ [])

abbrev linked : StoreWorld db ctx
linked = world (
    account "1" (codes "a@x") (some (magic_link_prefix ++ toy.sha256 token)) none
    ∷ account "2" (codes "b@x") none none
    ∷ [])

abbrev after_reset : StoreWorld db ctx
after_reset = (consume_password_reset_token db ctx token new_password 5 resettable).1

reset-done :
    consume_password_reset_token db ctx token new_password 5 resettable ≡ (done, after_reset)
unfolding run
reset-done = refl

consume_password_reset_token-once_example :
    consume_password_reset_token db ctx token (codes "third-one") 6 after_reset
    ≡ (refused, after_reset)
unfolding run
consume_password_reset_token-once_example =
    consume_password_reset_token-once db ctx token new_password (codes "third-one") 5 6 resettable
      after_reset (omega arith) reset-done

consume_password_reset_token-apart_example :
    consume_password_reset_token db ctx token new_password 5 linked ≢ (done, linked)
consume_password_reset_token-apart_example =
    consume_password_reset_token-apart db ctx token new_password 5 linked linked toy-Hashes refl

abbrev link_token : Text
link_token = magic_link_prefix ++ token

abbrev after_link : StoreWorld db ctx
after_link = (consume_magic_link_token db ctx link_token 5 linked).1

abbrev opened : UserRow
opened = record (account "1" (codes "a@x") none none) { password_reset_expires_at = none }

link-opened : consume_magic_link_token db ctx link_token 5 linked ≡ (some opened, after_link)
unfolding run
link-opened = refl

consume_magic_link_token-once_example :
    (consume_magic_link_token db ctx link_token 6 after_link ≡ (none, after_link))
    × (opened.password_reset_token ≡ none)
    × (all (is_spent "1") (rows db ctx after_link) ≡ true)
unfolding run
consume_magic_link_token-once_example =
    consume_magic_link_token-once db ctx link_token 5 6 linked after_link opened (omega arith)
      link-opened

abbrev mailed : UserRow
mailed =
    account "1" (codes "a@x") none (some (generate_expiring_hashed_token toy [] 9 token).db_value)

abbrev mail_token : Text
mail_token = (generate_expiring_hashed_token toy [] 9 token).raw

verified-in_time :
    (consume_email_verification_token db ctx (λ t. t) (λ t. t) mail_token 7 (world (mailed ∷ []))).0
    ≡ true
unfolding run
verified-in_time = refl

mailed-found : mail_row db ctx (λ t. t) (λ t. t) [] mail_token (world (mailed ∷ [])) ≡ some mailed
unfolding run
mailed-found = refl

consume_email_verification_token-in_time_example : 7 ≤ 9
consume_email_verification_token-in_time_example =
    consume_email_verification_token-in_time db ctx (λ t. t) (λ t. t) mail_token token 7 9
      (world (mailed ∷ [])) mailed toy-PrintsNumbers toy-Hashes (omega arith) mailed-found refl
      verified-in_time

-- A change to `c@x`.
abbrev change_token : Text
change_token = (generate_expiring_hashed_token toy (codes "ec:c@x:") 9 token).raw

abbrev changing : StoreWorld db ctx
changing = world (
    account "1" (codes "a@x") none
      (some (generate_expiring_hashed_token toy (codes "ec:c@x:") 9 token).db_value)
    ∷ account "2" (codes "b@x") none none
    ∷ [])

abbrev address : Option UserRow → Text
address none = []
address (some r) = r.email

confirmed_email :
    address (
      find_by_email db ctx
        (codes "c@x")
        (confirm_email_change db ctx (λ t. t) (λ t. t) change_token 7 changing).1)
    ≡ codes "c@x"
unfolding run
confirmed_email = refl

two_texts :
    (a b e : Text)
    → same b a ≡ false
    → (if same a e then 1 else 0) + ((if same b e then 1 else 0) + 0) ≤ 1
two_texts a b e apart = elim (Bool-cases (same a e)) [
  | inl own ↦
      let other : same b e ≡ false = ap (same b) (sym (same_sound a e own)) ∙ apart in
      ground (arith, other)
  | inr other ↦ ground (arith, other)
]

two_ids : (i : String) → (if str_eq "1" i then 1 else 0) + ((if str_eq "2" i then 1 else 0) + 0) ≤ 1
two_ids i = elim (Bool-cases (str_eq "1" i)) [
  | inl own ↦
      let other : str_eq "2" i ≡ false = ap (str_eq "2") (sym ((eq_iff "1" i).0 own)) in
      ground (arith, other)
  | inr other ↦ ground (arith, other)
]

changing-IsUnique : IsUnique db ctx changing
unfolding run
changing-IsUnique = record {
  emails = λ e. two_texts (codes "a@x") (codes "b@x") e refl;
  ids = two_ids;
}

confirm_email_change-IsUnique_example :
    IsUnique db ctx (confirm_email_change db ctx (λ t. t) (λ t. t) change_token 7 changing).1
confirm_email_change-IsUnique_example =
    confirm_email_change-IsUnique db ctx (λ t. t) (λ t. t) change_token 7 changing changing-IsUnique

change_password-verify_credentials_example :
    (verify_credentials db ctx
      (codes "a@x")
      new_password
      (change_password db ctx "1" new_password 5 changing).1).0
    ≡ some
        (record (account "1"
          (codes "a@x")
          none
          (some (generate_expiring_hashed_token toy (codes "ec:c@x:") 9 token).db_value)) {
            password = codes "panother-one";
            password_changed_at = some 5;
          })
unfolding run
change_password-verify_credentials_example =
    change_password-verify_credentials db ctx "1" new_password 5 changing
      (change_password db ctx "1" new_password 5 changing).1
      (account "1" (codes "a@x") none
        (some (generate_expiring_hashed_token toy (codes "ec:c@x:") 9 token).db_value))
      ctx-IsHasher changing-IsUnique refl refl

-- The stored password was hashed before there was a pepper.
verify_credentials-loses_pepper_example :
    (find_by_email db ctx
        (codes "b@x")
        (verify_credentials db ctx (codes "b@x") (codes "secret77") changing).1
      ≡ some (account "2" (codes "b@x") none none))
    × (verify ctx.hmac ctx.passwords ctx.hooks (codes "secret77") (codes "secret77")
        ≡ record { ok = true; rehash = true })
unfolding run
verify_credentials-loses_pepper_example =
    verify_credentials-loses_pepper db ctx (codes "b@x") (codes "secret77") changing
      (account "2" (codes "b@x") none none) ctx-IsHasher refl refl refl
