-- ===== src/Accounts/Tokens.antt =====
-- core.ts: the slot `passwordResetToken`, which holds a password reset, a magic link, or a link with
-- a code.
use adonis_authkit.Prelude.{
  ℕ, ◌+◌, ◌*◌, Bool, true, false, ◌||◌, Option, none, some, [], ◌∷◌, ◌++◌, Text, codes, same,
  starts_with, first, if◌then◌else◌, ltb,
}
use adonis_authkit.Db.{Table}
use adonis_authkit.OtpLogin.{
  prefix, encode_otp_token, decode_otp_token, hash_login_otp, link_token_from_otp_url, from_ℕ,
  evaluate_login_otp, OtpVerifyOutcome, ok, no_code, NextToken, leave, clear, write,
}
use adonis_authkit.TokenHash.{generate_hashed_token, raw_to_db_token}
use adonis_authkit.Accounts.{
  UserRow, StoreContext, StoreWorld, rows, save, find_by_email, policy_error, stored, changed_at,
  Change, threw, refused, done,
}

abbrev pub magic_link_prefix : Text
magic_link_prefix = codes "ml:"

abbrev pub minute_ms : ℕ
minute_ms = 60000

abbrev pub hour_ms : ℕ
hour_ms = 3600000

abbrev pub holds : Text → Option Text → Bool
holds value none = false
holds value (some v) = same v value

abbrev pub has_slot : Text → UserRow → Bool
has_slot value row = holds value row.password_reset_token

abbrev pub begins : Text → Option Text → Bool
begins p none = false
begins p (some v) = starts_with p v

-- A slot without a deadline counts as expired.
abbrev pub slot_expired : Option ℕ → ℕ → Bool
slot_expired none now = true
slot_expired (some at) now = ltb at now

abbrev pub with_slot : Text → ℕ → UserRow → UserRow
with_slot value at r = record r {
  password_reset_token = some value;
  password_reset_expires_at = some at;
}

abbrev pub without_slot : UserRow → UserRow
without_slot r = record r { password_reset_token = none; password_reset_expires_at = none }

module _ (db : Table UserRow) (ctx : StoreContext) where
  abbrev World : Type 0
  World = StoreWorld db ctx

  -- `random` is what the generator draws; the result is what the mail carries.
  unfoldable pub issue_password_reset_token : Text → Text → ℕ → World → Option Text × World
  unfolding generate_hashed_token
  issue_password_reset_token email random now w = elim (find_by_email db ctx email w) [
    | none ↦ (none, w)
    | some row ↦
        let token = generate_hashed_token ctx.js [] random in
        (some token.raw, save db ctx row (with_slot token.db_value (now + hour_ms)) w)
  ]

  abbrev pub with_password : Text → ℕ → UserRow → UserRow
  with_password password now r = record (without_slot r) {
    password = stored db ctx password;
    password_changed_at = changed_at db ctx now r;
  }

  abbrev pub reset_row : Text → World → Option UserRow
  reset_row token w = first (has_slot (raw_to_db_token ctx.js [] token)) (rows db ctx w)

  unfoldable pub consume_password_reset_token : Text → Text → ℕ → World → Change db ctx × World
  consume_password_reset_token token password now w =
      if starts_with magic_link_prefix token || starts_with prefix token
      then (refused, w)
      else elim (reset_row token w) [
        | none ↦ (refused, w)
        | some row ↦
            if slot_expired row.password_reset_expires_at now
            then (refused, w)
            else elim (policy_error db ctx password) [
              | some e ↦ (threw e, w)
              | none ↦ (done, save db ctx row (with_password password now) w)
            ]
      ]

  unfoldable pub issue_magic_link_token : Text → Text → ℕ → World → Option Text × World
  unfolding generate_hashed_token
  issue_magic_link_token email random now w = elim (find_by_email db ctx email w) [
    | none ↦ (none, w)
    | some row ↦
        let token = generate_hashed_token ctx.js magic_link_prefix random in
        (some token.raw, save db ctx row (with_slot token.db_value (now + 15 * minute_ms)) w)
  ]

  -- The row object is changed, saved and returned.
  abbrev pub saved_row : UserRow → (UserRow → UserRow) → World → Option UserRow × World
  saved_row row patch w = (some (patch row), save db ctx row patch w)

  -- A row that is found and has not expired is used up.
  abbrev pub use_up : Option UserRow → ℕ → World → Option UserRow × World
  use_up none now w = (none, w)
  use_up (some row) now w =
      if slot_expired row.password_reset_expires_at now
      then (none, w)
      else saved_row row without_slot w

  -- The row whose slot is `ml2:<hash>:…`.
  abbrev pub linked_row : Text → World → Option UserRow
  linked_row link w =
      first (λ r. begins (prefix ++ (ctx.js.sha256 link ++ b':' ∷ [])) r.password_reset_token)
        (rows db ctx w)

  abbrev pub link_row : Text → World → Option UserRow
  link_row token w =
      first (has_slot (raw_to_db_token ctx.js magic_link_prefix token)) (rows db ctx w)

  unfoldable pub consume_magic_link_token : Text → ℕ → World → Option UserRow × World
  consume_magic_link_token token now w =
      if starts_with prefix token
      then elim (link_token_from_otp_url token) [
        | none ↦ (none, w)
        | some link ↦ use_up (linked_row link w) now w
      ]
      else (if starts_with magic_link_prefix token
          then use_up (link_row token w) now w
          else (none, w))

  -- `link` and `code` are drawn. The result is the token of the mail and the code.
  unfoldable pub issue_magic_link_with_code :
      Text → Text → Text → Text → ℕ → ℕ → World → Option (Text × Text) × World
  unfolding encode_otp_token hash_login_otp
  issue_magic_link_with_code email uid link code ttl_minutes now w =
      elim (find_by_email db ctx email w) [
        | none ↦ (none, w)
        | some row ↦
            let slot = encode_otp_token ctx.js (record {
              link_token = ctx.js.sha256 link;
              code_hash = hash_login_otp ctx.js uid code;
              code_exp_ms = from_ℕ (now + ttl_minutes * minute_ms);
              attempts = 0;
            }) in
            (some (prefix ++ link, code), save db ctx row (with_slot slot (now + 15 * minute_ms)) w)
      ]

  -- The write that an evaluation asks for.
  abbrev pub write_next : NextToken → UserRow → World → World
  write_next leave row w = w
  write_next clear row w = save db ctx row without_slot w
  write_next (write slot) row w =
      save db ctx row (λ r. record r { password_reset_token = some slot }) w

  -- In one transaction, with the row locked.
  unfoldable pub verify_login_code :
      Text → Text → Text → ℕ → ℕ → World → (OtpVerifyOutcome × Option UserRow) × World
  unfolding evaluate_login_otp decode_otp_token
  verify_login_code email uid code max_attempts now w = elim (find_by_email db ctx email w) [
    | none ↦ ((no_code, none), w)
    | some row ↦
        let evaluation =
          evaluate_login_otp ctx.js uid code now max_attempts
            (decode_otp_token ctx.js row.password_reset_token) in
        (
          (evaluation.result, elim evaluation.result [ ok ↦ some row | _ ↦ none ]),
          write_next evaluation.next_token row w,
        )
  ]
