-- ===== src/Accounts/SignIn.antt =====
-- core.ts: signing in after a change of password, and after a lazy rehash.
use adonis_authkit.Prelude.{
  ℕ, ◌≡◌, refl, ap, Bool, true, false, some, List, [], ◌∷◌, ◌++◌, Text, same, same_refl, String,
  eq_refl, some_of, arith, Option-cases, inl, inr,
}
use adonis_authkit.Db.{Table}
use adonis_authkit.Db.Finding.{first-amend-kept, first-only}
use adonis_authkit.Passwords.{
  Pepper, unset, one, several, peppered, resolve_peppers, apply_current_pepper, verify,
}
use adonis_authkit.Passwords.Rotation.{Hasher, native_ok, verify-ok, verify-old_pepper}
use adonis_authkit.Accounts.{
  UserRow, StoreContext, StoreWorld, rows, save, has_id, has_email, stored, changed_at, find_by_id,
  find_by_email, policy_error, rehashed, verify_credentials, done, change_password,
}
use adonis_authkit.Accounts.Deadlines.{IsUnique}

-- No pepper is always among those that are tried.
none-listed : (pepper : Pepper) → some_of (same []) (resolve_peppers pepper) ≡ true
unfolding resolve_peppers same
none-listed unset = refl
none-listed (one p) = ground arith
none-listed (several ps) = last ps
  where
    last : (ps : List Text) → some_of (same []) (ps ++ [] ∷ []) ≡ true
    last [] = refl
    last (p ∷ ps) = ground (arith, last ps)

abbrev current : Pepper → Text
current unset = []
current (one p) = p
current (several []) = []
current (several (p ∷ ps)) = p

module _ (hmac : Text → Text → Text) where
  peppered-current :
      (pepper : Pepper) (plain : Text)
      → apply_current_pepper hmac pepper plain ≡ peppered hmac (current pepper) plain
  unfolding apply_current_pepper
  peppered-current unset plain = refl
  peppered-current (one p) plain = refl
  peppered-current (several []) plain = refl
  peppered-current (several (p ∷ ps)) plain = refl

current-listed :
    (f : Text → Bool) (pepper : Pepper)
    → f (current pepper) ≡ true
    → some_of f (resolve_peppers pepper) ≡ true
unfolding resolve_peppers same
current-listed f unset e = rw (e) refl
current-listed f (one []) e = rw (e) refl
current-listed f (one (c ∷ p)) e = rw (e) refl
current-listed f (several []) e = rw (e) refl
current-listed f (several (p ∷ ps)) e = rw (e) refl

module _ (db : Table UserRow) (ctx : StoreContext) where
  -- The hasher of the store: what it makes verifies for the text it was made of, and for no other.
  pub record IsHasher : Type 0 where
    pub checks : (x y : Text) → ctx.hooks.native_verify (ctx.make x) y ≡ some (same x y)

  abbrev hasher : IsHasher → Hasher ctx.hooks
  hasher laws = record { make = ctx.make; checks = laws.checks }

  abbrev pepper : Pepper
  pepper = ctx.passwords.0

  native-own :
      (laws : IsHasher) (t p plain : Text)
      → t ≡ peppered ctx.hmac p plain
      → native_ok ctx.hmac ctx.hooks (ctx.make t) plain p ≡ true
  native-own laws t p plain e =
      rw (e, laws.checks (peppered ctx.hmac p plain) (peppered ctx.hmac p plain))
        (same_refl (peppered ctx.hmac p plain))

  stored-ok :
      (laws : IsHasher) (password : Text)
      → (verify ctx.hmac ctx.passwords ctx.hooks (stored db ctx password) password).ok ≡ true
  stored-ok laws password =
      let own =
        current-listed (native_ok ctx.hmac ctx.hooks (stored db ctx password) password) pepper (
          native-own laws (apply_current_pepper ctx.hmac pepper password) (current pepper) password
            (peppered-current ctx.hmac pepper password)) in
      rw
        (verify-ok ctx.hmac ctx.hooks pepper ctx.passwords.1 (stored db ctx password) password, own)
        refl

  signs_in :
      (email password : Text) (w : StoreWorld db ctx) {row : UserRow}
      → find_by_email db ctx email w ≡ some row
      → (verify ctx.hmac ctx.passwords ctx.hooks row.password password).ok ≡ true
      → (verify_credentials db ctx email password w).0 ≡ some row
  unfolding verify_credentials
  signs_in email password w {row} found good = rw (verify_credentials, found, good) refl

  abbrev with_new_password : Text → ℕ → UserRow → UserRow
  with_new_password password now r = record r {
    password = stored db ctx password;
    password_changed_at = changed_at db ctx now r;
  }

  -- Who changed the password signs in with the new one, under whatever pepper is set.
  pub change_password-verify_credentials :
      (id : String) (password : Text) (now : ℕ) (w u : StoreWorld db ctx) (row : UserRow)
      → IsHasher
      → IsUnique db ctx w
      → find_by_id db ctx id w ≡ some row
      → change_password db ctx id password now w ≡ (done, u)
      → (verify_credentials db ctx row.email password u).0
        ≡ some (with_new_password password now row)
  unfolding change_password
  change_password-verify_credentials id password now w u row laws unique found e =
      let saved : save db ctx row (with_new_password password now) w ≡ u =
        elim (Option-cases (policy_error db ctx password)) [
          | inl good ↦ ap (λ p. p.1) (rw (change_password, found, good) at e)
          | inr (x, bad) ↦ absurd (cc (rw (change_password, found, bad) at e))
        ] in
      let at_email =
        first-only (has_email row.email) (has_id id) (rows db ctx w) found (same_refl row.email)
          (unique.emails row.email) in
      let kept =
        first-amend-kept (has_email row.email) (has_id row.id) (with_new_password password now)
          (λ x. refl) (rows db ctx w) at_email (eq_refl row.id) in
      signs_in row.email password u (rw (← saved, db.rows_update) kept) (stored-ok laws password)

  -- Under a pepper, a lazy rehash stores the password without it: the account is found with the
  -- hash of the bare password, which is accepted, and which asks for a rehash again.
  pub verify_credentials-loses_pepper :
      (email password : Text) (w : StoreWorld db ctx) (row : UserRow)
      → IsHasher
      → same password (apply_current_pepper ctx.hmac pepper password) ≡ false
      → find_by_email db ctx email w ≡ some row
      → verify ctx.hmac ctx.passwords ctx.hooks row.password password
        ≡ record { ok = true; rehash = true }
      → (find_by_email db ctx email (verify_credentials db ctx email password w).1
          ≡ some (record row { password = ctx.make password }))
        × (verify ctx.hmac ctx.passwords ctx.hooks (ctx.make password) password
            ≡ record { ok = true; rehash = true })
  unfolding verify_credentials rehashed
  verify_credentials-loses_pepper email password w row laws other found result = (
    rw (verify_credentials, found, result, db.rows_update)
        (first-amend-kept (has_email email) (has_id row.id)
          (λ r. record r { password = ctx.make password }) (λ x. refl) (rows db ctx w) found
          (eq_refl row.id)),
    verify-old_pepper ctx.hmac ctx.hooks (hasher laws) ctx.passwords.1 pepper [] password
        (none-listed pepper) other,
  )
