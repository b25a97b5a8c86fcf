-- ===== src/Passkeys/Removal.antt =====
-- webauthn.ts with mfa.ts: what is left when the last passkey is removed.
use adonis_authkit.Prelude.{
  ℕ, ◌<◌, ◌≡◌, refl, ap, true, false, not, none, some, List, [], ◌∷◌, ◌++◌, Text, String, eq_refl,
  first, keep, Option-cases, Bool-cases, inl, inr,
}
use adonis_authkit.Db.{Table}
use adonis_authkit.Mfa.{
  MfaState, MfaContext, read, upsert, get_mfa_state, verify_totp, consume_recovery_code,
}
use adonis_authkit.Mfa.Rows.{read-inserted}
use adonis_authkit.Mfa.Lifecycle.{is_set-positive}
use adonis_authkit.Passkeys.{
  Credential, RegistrationInfo, Ceremonies, is_of, is_credential, enabling, credential_of,
  PasskeyWorld, enable_mfa, verify_passkey_registration, passkeys,
  generate_passkey_authentication_options, verify_passkey_authentication, remove_passkey,
}

only_own :
    (account_id : String) (c : Credential) (xs : List Credential)
    → keep (is_of account_id) xs ≡ []
    → is_of account_id c ≡ true
    → keep (is_of account_id) (keep (λ x. not (is_credential account_id c.id x)) (xs ++ c ∷ []))
      ≡ []
only_own account_id c [] e own = rw (own, eq_refl c.id) refl
only_own account_id c (x ∷ xs) e own = elim (Bool-cases (is_of account_id x)) [
  | inl mine ↦ absurd (cc (rw (mine) at e))
  | inr other ↦ rw (other, other) (only_own account_id c xs (rw (other) at e) own)
]

none-first :
    (account_id id : String) (xs : List Credential)
    → keep (is_of account_id) xs ≡ []
    → first (is_credential account_id id) xs ≡ none
none-first account_id id [] e = refl
none-first account_id id (x ∷ xs) e = elim (Bool-cases (is_of account_id x)) [
  | inl own ↦ absurd (cc (rw (own) at e))
  | inr other ↦ rw (other) (none-first account_id id xs (rw (other) at e))
]

module _ (db : Table Credential) (mfa : Table MfaState) (ctx : MfaContext)
    (ceremonies : Ceremonies) where
  abbrev World : Type 0
  World = PasskeyWorld db mfa ctx ceremonies

  -- An account whose only factor is a passkey, and which removes it, keeps the second factor switched
  -- on with nothing to present: no passkey, no code of an app and no recovery code is accepted.
  pub remove_passkey-leaves_mfa :
      (account_id : String) (response other : ceremonies.Response) (challenge again code : Text)
      (info : RegistrationInfo) (now later : ℕ) (w u : World)
      → 0 < now
      → read mfa ctx account_id w.factors ≡ none
      → passkeys db mfa ctx ceremonies account_id w ≡ []
      → ceremonies.verify_registration response challenge ≡ some info
      → verify_passkey_registration db mfa ctx ceremonies account_id true response challenge now w
        ≡ (some true, u)
      → let v = remove_passkey db mfa ctx ceremonies account_id info.id u in
        ((get_mfa_state mfa ctx account_id v.factors).0 ≡ true)
        × ((verify_totp mfa ctx account_id code later v.factors).0 ≡ some false)
        × ((consume_recovery_code mfa ctx account_id code v.factors).0 ≡ some false)
        × (generate_passkey_authentication_options db mfa ctx ceremonies account_id v ≡ none)
        × ((verify_passkey_authentication db mfa ctx ceremonies account_id other again v).0 ≡ false)
  unfolding verify_passkey_registration enable_mfa verify_totp consume_recovery_code
      verify_passkey_authentication
  remove_passkey-leaves_mfa account_id response other challenge again code info now later w u
        positive off none_yet proved e =
      let c = credential_of account_id info in
      elim (Option-cases (db.insert c w.credentials)) [
        | inl threw ↦ absurd (cc (rw (verify_passkey_registration, proved, threw) at e))
        | inr (creds, inserted) ↦
            elim (Option-cases (upsert mfa ctx account_id (enabling now) w.factors)) [
              | inl threw ↦ absurd (
                  cc (
                    rw (verify_passkey_registration, proved, inserted, enable_mfa, off, threw) at
                      e))
              | inr (f, saved) ↦
                  let u' : World = record { credentials = creds; factors = f } in
                  let same_ : u' ≡ u =
                    ap (λ p. p.1)
                      (rw (verify_passkey_registration, proved, inserted, enable_mfa, off, saved) at
                        e) in
                  let there =
                    read-inserted mfa ctx account_id (enabling now) w.factors f (λ x. refl) off
                      saved in
                  let rows_left = db.rows (db.delete (is_credential account_id info.id) creds) in
                  let none_left : keep (is_of account_id) rows_left ≡ [] =
                    rw (db.rows_delete, db.rows_insert c w.credentials inserted)
                      (only_own account_id c (db.rows w.credentials) none_yet
                        (eq_refl account_id)) in
                  rw (← same_) (
                    rw (get_mfa_state, there) (is_set-positive now positive),
                    rw (verify_totp, there, is_set-positive now positive) refl,
                    rw (consume_recovery_code, there, is_set-positive now positive) refl,
                    rw (generate_passkey_authentication_options, none_left) refl,
                    rw
                        (
                          verify_passkey_authentication,
                          none-first account_id (ceremonies.response_id other) rows_left none_left,
                        )
                        refl,
                  )
            ]
      ]
