-- ===== src/Mfa/Rows.antt =====
-- mfa.ts: the row of an account before and after a write, and a run of attempts.
use adonis_authkit.Prelude.{
  ℕ, ◌≡◌, refl, sym, ap, ◌∙◌, Bool, true, false, Option, none, some, List, [], ◌∷◌, Text, String,
  eq_refl, first, first-holds, some_of, arith, Option-cases, inl, inr,
}
use adonis_authkit.Db.{Table}
use adonis_authkit.Db.Finding.{first-amend-kept, first-append-here}
use adonis_authkit.Mfa.{
  MfaState, MfaContext, has_account, empty_row, read, upsert, verify_totp, consume_recovery_code,
}

abbrev pub accepted : Option Bool → Bool
accepted none = false
accepted (some b) = b

-- A second factor that is presented, a code of an app at a time, or a recovery code.
pub data Attempt : Type 0 where
  totp : Text → ℕ → Attempt
  recovery_code : Text → Attempt

some_of-first :
    {A : Type 0} (p : A → Bool) (xs : List A) {r : A} → first p xs ≡ some r → some_of p xs ≡ true
some_of-first p [] e = absurd (cc e)
some_of-first p (x ∷ xs) {r} e = ground (arith, some_of-first p xs {r = r})

some_of-none : {A : Type 0} (p : A → Bool) (xs : List A) → first p xs ≡ none → some_of p xs ≡ false
some_of-none p [] e = refl
some_of-none p (x ∷ xs) e = ground (arith, some_of-none p xs)

abbrev state_or {ℓ} : {A : Type ℓ} → A → Option A → A
state_or fallback none = fallback
state_or fallback (some a) = a

module _ (db : Table MfaState) (ctx : MfaContext) where
  abbrev pub patched : String → (MfaState → MfaState) → db.State → db.State
  patched id patch w = db.update (has_account id) patch w

  pub upsert-found :
      (id : String) (patch : MfaState → MfaState) (w : db.State) {row : MfaState}
      → read db ctx id w ≡ some row
      → upsert db ctx id patch w ≡ some (patched id patch w)
  unfolding upsert
  upsert-found id patch w {row} e =
      rw (upsert, some_of-first (has_account id) (db.rows w) {r = row} e) refl

  pub read-patched :
      (id : String) (patch : MfaState → MfaState) (w : db.State) {row : MfaState}
      → ((x : MfaState) → has_account id (patch x) ≡ has_account id x)
      → read db ctx id w ≡ some row
      → read db ctx id (patched id patch w) ≡ some (patch row)
  read-patched id patch w {row} h e = rw (db.rows_update) (
      first-amend-kept (has_account id) (has_account id) patch h (db.rows w) e
        (first-holds (has_account id) (db.rows w) e))

  pub read-inserted :
      (id : String) (patch : MfaState → MfaState) (w u : db.State)
      → ((x : MfaState) → has_account id (patch x) ≡ has_account id x)
      → read db ctx id w ≡ none
      → upsert db ctx id patch w ≡ some u
      → read db ctx id u ≡ some (patch (empty_row id))
  unfolding upsert
  read-inserted id patch w u h unknown e =
      let inserted : db.insert (patch (empty_row id)) w ≡ some u =
        rw (upsert, some_of-none (has_account id) (db.rows w) unknown) at e in
      rw (db.rows_insert (patch (empty_row id)) w inserted) (
        first-append-here (has_account id) (db.rows w) (patch (empty_row id)) unknown
          (h (empty_row id) ∙ eq_refl id))

  -- Whatever was there, the row of the account has the patch afterwards.
  pub read-upsert :
      (id : String) (patch : MfaState → MfaState) (w u : db.State)
      → ((x : MfaState) → has_account id (patch x) ≡ has_account id x)
      → upsert db ctx id patch w ≡ some u
      → (row : MfaState) × (read db ctx id u ≡ some (patch row))
  read-upsert id patch w u h e = elim (Option-cases (read db ctx id w)) [
    | inl unknown ↦ (empty_row id, read-inserted id patch w u h unknown e)
    | inr (row, found) ↦
        let saved : patched id patch w ≡ u =
          ap (state_or w) (sym (upsert-found id patch w {row = row} found) ∙ e) in
        (row, rw (← saved) (read-patched id patch w {row = row} h found))
  ]

  abbrev pub present : String → Attempt → db.State → Option Bool × db.State
  present id (totp code now) w = verify_totp db ctx id code now w
  present id (recovery_code code) w = consume_recovery_code db ctx id code w
