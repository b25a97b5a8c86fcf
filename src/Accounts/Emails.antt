-- ===== src/Accounts/Emails.antt =====
-- core.ts: the slot `emailVerificationToken`, which holds the verification of an address, or a
-- change to another.
use adonis_authkit.Prelude.{
  ℕ, ◌+◌, ◌*◌, Bool, true, false, not, Option, none, some, List, [], ◌∷◌, ◌++◌, Text, codes, same,
  starts_with, String, str_eq, first, if◌then◌else◌,
}
use adonis_authkit.Prelude.Words.{split}
use adonis_authkit.Prelude.Integers.{JsNumber}
use adonis_authkit.Db.{Table}
use adonis_authkit.OtpLogin.{before}
use adonis_authkit.TokenHash.{
  generate_expiring_hashed_token, raw_to_expiring_db_token, parse_expiring_token_exp,
}
use adonis_authkit.Accounts.{
  UserRow, StoreContext, StoreWorld, rows, save, find_by_id, find_by_email,
}
use adonis_authkit.Accounts.Tokens.{hour_ms, holds}

abbrev pub email_change_prefix : Text
email_change_prefix = codes "ec:"

abbrev pub has_mail_slot : Text → UserRow → Bool
has_mail_slot value row = holds value row.email_verification_token

abbrev hours : ℕ → Option ℕ → ℕ
hours fallback none = fallback
hours fallback (some h) = h

-- No deadline, or one that is no number, counts as expired.
abbrev pub deadline_passed : Option JsNumber → ℕ → Bool
deadline_passed none now = true
deadline_passed (some exp) now = before exp now

abbrev pub with_mail_slot : Text → UserRow → UserRow
with_mail_slot value r = record r { email_verification_token = some value }

abbrev pub verified : ℕ → UserRow → UserRow
verified now r = record r { email_verified_at = some now; email_verification_token = none }

-- `encode` and `decode` are base64url; what is not base64url decodes to something.
module _ (db : Table UserRow) (ctx : StoreContext) (encode decode : Text → Text) where
  abbrev World : Type 0
  World = StoreWorld db ctx

  unfoldable pub issue_email_verification_token : Text → Text → ℕ → World → Option Text × World
  unfolding generate_expiring_hashed_token
  issue_email_verification_token email random now w = elim (find_by_email db ctx email w) [
    | none ↦ (none, w)
    | some row ↦
        let token =
          generate_expiring_hashed_token ctx.js []
            (now + hours 24 ctx.email_verification_ttl_hours * hour_ms) random in
        (some token.raw, save db ctx row (with_mail_slot token.db_value) w)
  ]

  abbrev pub mail_row : Text → Text → World → Option UserRow
  mail_row mail_prefix token w =
      first (has_mail_slot (raw_to_expiring_db_token ctx.js mail_prefix token)) (rows db ctx w)

  unfoldable pub consume_email_verification_token : Text → ℕ → World → Bool × World
  consume_email_verification_token token now w =
      if same token []
      then (false, w)
      else if starts_with email_change_prefix token
      then (false, w)
      else elim (mail_row [] token w) [
        | none ↦ (false, w)
        | some row ↦
            if deadline_passed (parse_expiring_token_exp ctx.js [] token) now
            then (false, w)
            else (true, save db ctx row (verified now) w)
      ]

  -- The address is taken by an account other than this one.
  abbrev pub is_taken : Text → String → World → Bool
  is_taken email id w = elim (find_by_email db ctx email w) [
    | none ↦ false
    | some other ↦ not (str_eq other.id id)
  ]

  abbrev pub change_prefix : Text → Text
  change_prefix encoded = email_change_prefix ++ (encoded ++ b':' ∷ [])

  unfoldable pub request_email_change : String → Text → Text → ℕ → World → Option Text × World
  unfolding generate_expiring_hashed_token
  request_email_change id email random now w = elim (find_by_id db ctx id w) [
    | none ↦ (none, w)
    | some row ↦
        if is_taken email row.id w
        then (none, w)
        else (let token =
              generate_expiring_hashed_token ctx.js (change_prefix (encode email))
                (now + hours 1 ctx.email_change_ttl_hours * hour_ms) random in
            (some token.raw, save db ctx row (with_mail_slot token.db_value) w))
  ]

  pub record EmailChanged : Type 0 where
    pub account : UserRow
    pub old_email : Text
    pub new_email : Text

  abbrev pub with_email : Text → ℕ → UserRow → UserRow
  with_email email now r = record (verified now r) { email = email }

  -- The row is found, and its deadline has not passed.
  unfoldable pub apply_change :
      Option UserRow → Text → Text → Text → ℕ → World → Option EmailChanged × World
  apply_change none encoded email token now w = (none, w)
  apply_change (some row) encoded email token now w =
      if deadline_passed (parse_expiring_token_exp ctx.js (change_prefix encoded) token) now
      then (none, w)
      else if is_taken email row.id w
      then (none, w)
      else (
        some (record {
          account = with_email email now row;
          old_email = row.email;
          new_email = email;
        }),
        save db ctx row (with_email email now) w,
      )

  -- A token has four parts, of which the second is the address.
  unfoldable pub change_parts : List Text → Text → ℕ → World → Option EmailChanged × World
  unfolding apply_change
  change_parts (p ∷ encoded ∷ e ∷ r ∷ []) token now w =
      if same (decode encoded) []
      then (none, w)
      else apply_change (mail_row (change_prefix encoded) token w) encoded (decode encoded) token
          now w
  change_parts _ token now w = (none, w)

  unfoldable pub confirm_email_change : Text → ℕ → World → Option EmailChanged × World
  unfolding change_parts
  confirm_email_change token now w =
      if starts_with email_change_prefix token
      then change_parts (split b':' token) token now w
      else (none, w)
