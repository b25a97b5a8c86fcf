-- ===== src/Mfa/Replay.antt =====
-- mfa.ts, verifyTotp: what one attempt does.
use adonis_authkit.Prelude.{
  ℕ, ◌≡◌, refl, true, false, Option, none, some, Text, String, Option-cases, Bool-cases, inl, inr,
}
use adonis_authkit.Prelude.Integers.{ℤ}
use adonis_authkit.Db.{Table}
use adonis_authkit.Mfa.{
  MfaState, MfaContext, read, is_replay, with_step, active_secret_of, token_step, last_step,
  verify_totp,
}
use adonis_authkit.Mfa.Rows.{accepted, upsert-found, read-patched}

module _ (db : Table MfaState) (ctx : MfaContext) (id : String) where
  abbrev row : db.State → Option MfaState
  row w = read db ctx id w

  -- The row that a state has, where a secret is active.
  row-active :
      (r : Option MfaState) {secret : Text}
      → active_secret_of db ctx r ≡ some secret
      → (x : MfaState) × (r ≡ some x)
  row-active none e = absurd (cc e)
  row-active (some x) e = (x, refl)

  -- The step that a code stands for at a time, under the secret of the account.
  abbrev pub presented : Text → ℕ → db.State → Option ℤ
  presented code now w = elim (active_secret_of db ctx (row w)) [
    | none ↦ none
    | some secret ↦ elim (ctx.check_delta code secret now) [
      | none ↦ none
      | some delta ↦ some (token_step db ctx now delta)
    ]
  ]

  -- A refusal leaves the step on record, and what is accepted goes on record.
  pub data Verdict (code : Text) (now : ℕ) (w : db.State) : Type 0 where
    refused :
        accepted (verify_totp db ctx id code now w).0 ≡ false
        → (verify_totp db ctx id code now w).1 ≡ w
        → Verdict code now w
    granted :
        (step : ℤ)
        → presented code now w ≡ some step
        → is_replay step (last_step db ctx (row w)) ≡ false
        → (verify_totp db ctx id code now w).0 ≡ some true
        → (x : MfaState) → row w ≡ some x
        → row (verify_totp db ctx id code now w).1 ≡ some (with_step step x)
        → Verdict code now w

  pub verdict : (code : Text) (now : ℕ) (w : db.State) → Verdict code now w
  unfolding verify_totp
  verdict code now w = elim (Option-cases (active_secret_of db ctx (row w))) [
    | inl off ↦ refused (rw (verify_totp, off) refl) (rw (verify_totp, off) refl)
    | inr (secret, on) ↦ elim (Option-cases (ctx.check_delta code secret now)) [
      | inl wrong ↦ refused (rw (verify_totp, on, wrong) refl) (rw (verify_totp, on, wrong) refl)
      | inr (delta, right) ↦
          elim (Bool-cases (is_replay (token_step db ctx now delta) (last_step db ctx (row w)))) [
            | inl old ↦
                refused (rw (verify_totp, on, right, old) refl)
                  (rw (verify_totp, on, right, old) refl)
            | inr new ↦
                let (x, found) = row-active (row w) {secret = secret} on in
                let saved =
                  upsert-found db ctx id (with_step (token_step db ctx now delta)) w {row = x}
                    found in
                granted (token_step db ctx now delta) (rw (presented, on, right) refl) new
                  (rw (verify_totp, on, right, new, saved) refl) x found
                  (rw (verify_totp, on, right, new, saved)
                    (read-patched db ctx id (with_step (token_step db ctx now delta)) w {row = x}
                      (λ y. refl) found))
          ]
    ]
  ]
