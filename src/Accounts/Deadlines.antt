-- ===== src/Accounts/Deadlines.antt =====
-- core.ts: the deadline of the mailed tokens, and the change of an address.
use adonis_authkit.Prelude.{
  ℕ, ◌≤◌, ◌≡◌, refl, sym, ap, ◌∙◌, Bool, true, false, not, ◌&&◌, Option, none, some, List, [], ◌∷◌,
  Text, same, same_sound, starts_with, String, first-holds, count, count-first, count-first-none,
  keep, arith, Option-cases, Bool-cases, inl, inr,
}
use adonis_authkit.Prelude.Words.{split}
use adonis_authkit.Db.{Table, amend}
use adonis_authkit.Db.Counting.{
  count-amend-lost, count-keep-split, count-amend-le, count-amend-same,
}
use adonis_authkit.OtpLogin.{PrintsNumbers, from_ℕ, max_safe}
use adonis_authkit.TokenHash.{
  generate_expiring_hashed_token, raw_to_expiring_db_token, parse_expiring_token_exp,
}
use adonis_authkit.TokenHash.Deadline.{Hashes, same_deadline}
use adonis_authkit.Accounts.{
  UserRow, StoreContext, StoreWorld, rows, save, has_id, has_email, find_by_email,
}
use adonis_authkit.Accounts.Tokens.{holds}
use adonis_authkit.Accounts.Emails.{
  email_change_prefix, has_mail_slot, deadline_passed, mail_row, consume_email_verification_token,
  change_prefix, is_taken, with_email, apply_change, change_parts, confirm_email_change,
}

abbrev pub slot_value : Option Text → Text
slot_value none = []
slot_value (some v) = v

holds-value : (v : Text) (slot : Option Text) → holds v slot ≡ true → slot ≡ some v
holds-value v none h = absurd (cc h)
holds-value v (some s) h = ap some (same_sound s v h)

not_passed : (exp now : ℕ) → deadline_passed (some (from_ℕ exp)) now ≡ false → now ≤ exp
not_passed exp now h = ground arith

module _ (db : Table UserRow) (ctx : StoreContext) where
  -- No two accounts have the same address, nor the same id.
  pub record IsUnique (w : StoreWorld db ctx) : Type 0 where
    pub emails : (email : Text) → count (has_email email) (rows db ctx w) ≤ 1
    pub ids : (id : String) → count (has_id id) (rows db ctx w) ≤ 1

module _ (db : Table UserRow) (ctx : StoreContext) (encode decode : Text → Text) where
  -- What a verification that was accepted has found.
  pub record IsVerified (token : Text) (now : ℕ) (w : StoreWorld db ctx) : Type 0 where
    pub row : UserRow
    pub found : mail_row db ctx encode decode [] token w ≡ some row
    pub in_time : deadline_passed (parse_expiring_token_exp ctx.js [] token) now ≡ false

  consume_email_verification_token-IsVerified :
      (token : Text) (now : ℕ) (w : StoreWorld db ctx)
      → (consume_email_verification_token db ctx encode decode token now w).0 ≡ true
      → IsVerified token now w
  unfolding consume_email_verification_token
  consume_email_verification_token-IsVerified token now w e = elim (Bool-cases (same token [])) [
    | inl empty ↦ absurd (cc (rw (consume_email_verification_token, empty) at e))
    | inr text ↦ elim (Bool-cases (starts_with email_change_prefix token)) [
      | inl change ↦ absurd (cc (rw (consume_email_verification_token, text, change) at e))
      | inr plain ↦ elim (Option-cases (mail_row db ctx encode decode [] token w)) [
        | inl unknown ↦
            absurd (cc (rw (consume_email_verification_token, text, plain, unknown) at e))
        | inr (row, found) ↦
            elim (Bool-cases (deadline_passed (parse_expiring_token_exp ctx.js [] token) now)) [
              | inl late ↦
                  absurd (cc (rw (consume_email_verification_token, text, plain, found, late) at e))
              | inr in_time ↦ record { row = row; found = found; in_time = in_time }
            ]
      ]
    ]
  ]

  -- An account's address is verified only before the deadline that was set when its token was
  -- issued, whatever deadline the token that comes back names.
  pub consume_email_verification_token-in_time :
      (token random : Text) (now exp : ℕ) (w : StoreWorld db ctx) (row : UserRow)
      → PrintsNumbers ctx.js
      → Hashes ctx.js
      → exp ≤ max_safe
      → mail_row db ctx encode decode [] token w ≡ some row
      → row.email_verification_token
        ≡ some (generate_expiring_hashed_token ctx.js [] exp random).db_value
      → (consume_email_verification_token db ctx encode decode token now w).0 ≡ true
      → now ≤ exp
  consume_email_verification_token-in_time token random now exp w row laws hash safe found issued
        e =
      let v = consume_email_verification_token-IsVerified token now w e in
      let slot =
        holds-value (raw_to_expiring_db_token ctx.js [] token) row.email_verification_token (
          first-holds (has_mail_slot (raw_to_expiring_db_token ctx.js [] token)) (rows db ctx w)
            found) in
      let stored : raw_to_expiring_db_token ctx.js [] token
          ≡ (generate_expiring_hashed_token ctx.js [] exp random).db_value =
        ap slot_value (sym slot ∙ issued) in
      let deadline = same_deadline ctx.js laws hash [] random token exp safe stored in
      not_passed exp now (rw deadline at v.in_time)

  -- An address that is free belongs to this account at most.
  free-count :
      (email : Text) (id : String) (w : StoreWorld db ctx)
      → is_taken db ctx encode decode email id w ≡ false
      → IsUnique db ctx w
      → count (has_email email) (keep (λ r. not (has_id id r)) (rows db ctx w)) ≡ 0
  free-count email id w free unique =
      let split = count-keep-split (has_email email) (has_id id) (rows db ctx w) in
      elim (Option-cases (find_by_email db ctx email w)) [
        | inl e ↦ omega (arith, split, count-first-none (has_email email) (rows db ctx w) e)
        | inr (other, e) ↦
            let own : has_id id other ≡ true = not-false (rw (is_taken, e) at free) in
            omega (
              arith,
              split,
              unique.emails email,
              count-first (has_email email) (λ x. has_email email x && has_id id x) (rows db ctx w)
                  e (both (first-holds (has_email email) (rows db ctx w) e) own),
            )
      ]
    where
      not-false : {b : Bool} → not b ≡ false → b ≡ true
      not-false {b} h = ground arith

      both : {a b : Bool} → a ≡ true → b ≡ true → (a && b) ≡ true
      both {a} {b} h k = rw (h, k) refl

  save_email-IsUnique :
      (email : Text) (now : ℕ) (row : UserRow) (w : StoreWorld db ctx)
      → is_taken db ctx encode decode email row.id w ≡ false
      → IsUnique db ctx w
      → IsUnique db ctx (save db ctx row (with_email db ctx encode decode email now) w)
  save_email-IsUnique email now row w free unique = record {
    emails = λ e. rw (db.rows_update) (address e);
    ids = λ id.
        rw
          (
            db.rows_update,
            count-amend-same (has_id id) (has_id row.id) (with_email db ctx encode decode email now)
                (λ x. refl) (rows db ctx w),
          )
          (unique.ids id);
  }
    where
      address :
          (e : Text)
          → count
              (has_email e)
              (amend (has_id row.id) (with_email db ctx encode decode email now) (rows db ctx w))
            ≤ 1
      address e = elim (Bool-cases (same email e)) [
        | inl own ↦ omega (
          arith,
          count-amend-le (has_email e) (has_id row.id) (with_email db ctx encode decode email now)
              (rows db ctx w),
          unique.ids row.id,
          rw (same_sound email e own) at (free-count email row.id w free unique),
        )
        | inr other ↦ omega (
          arith,
          count-amend-lost (has_email e) (has_id row.id) (with_email db ctx encode decode email now)
              (λ x. other) (rows db ctx w),
          count-keep-split (has_email e) (has_id row.id) (rows db ctx w),
          unique.emails e,
        )
      ]

  apply_change-IsUnique :
      (row : Option UserRow) (encoded email token : Text) (now : ℕ) (w : StoreWorld db ctx)
      → IsUnique db ctx w
      → IsUnique db ctx (apply_change db ctx encode decode row encoded email token now w).1
  unfolding apply_change
  apply_change-IsUnique none encoded email token now w unique = unique
  apply_change-IsUnique (some row) encoded email token now w unique =
      elim (Bool-cases (
        deadline_passed
          (parse_expiring_token_exp ctx.js (change_prefix db ctx encode decode encoded) token)
          now)) [
            | inl late ↦ rw (late) unique
            | inr in_time ↦ elim (Bool-cases (is_taken db ctx encode decode email row.id w)) [
              | inl taken ↦ rw (in_time, taken) unique
              | inr free ↦ rw (in_time, free) (save_email-IsUnique email now row w free unique)
            ]
          ]

  change_parts-IsUnique :
      (parts : List Text) (token : Text) (now : ℕ) (w : StoreWorld db ctx)
      → IsUnique db ctx w
      → IsUnique db ctx (change_parts db ctx encode decode parts token now w).1
  unfolding change_parts
  change_parts-IsUnique [] token now w unique = unique
  change_parts-IsUnique (p ∷ []) token now w unique = unique
  change_parts-IsUnique (p ∷ q ∷ []) token now w unique = unique
  change_parts-IsUnique (p ∷ q ∷ r ∷ []) token now w unique = unique
  change_parts-IsUnique (p ∷ q ∷ r ∷ s ∷ []) token now w unique =
      elim (Bool-cases (same (decode q) [])) [
        | inl empty ↦ rw (empty) unique
        | inr text ↦ rw (text) (
            apply_change-IsUnique
              (mail_row db ctx encode decode (change_prefix db ctx encode decode q) token w) q
              (decode q) token now w unique)
      ]
  change_parts-IsUnique (p ∷ q ∷ r ∷ s ∷ t ∷ more) token now w unique = unique

  -- A change of address never gives two accounts the same one: also where the address was taken in
  -- the meantime, a confirmation, accepted or refused, leaves addresses and ids unique.
  pub confirm_email_change-IsUnique :
      (token : Text) (now : ℕ) (w : StoreWorld db ctx)
      → IsUnique db ctx w
      → IsUnique db ctx (confirm_email_change db ctx encode decode token now w).1
  unfolding confirm_email_change
  confirm_email_change-IsUnique token now w unique =
      elim (Bool-cases (starts_with email_change_prefix token)) [
        | inl change ↦ rw (change) (change_parts-IsUnique (split b':' token) token now w unique)
        | inr other ↦ rw (other) unique
      ]
