-- ===== src/Mfa/Lifecycle.antt =====
-- mfa.ts: from the start of an enrolment to the end of the second factor.
use adonis_authkit.Prelude.{
  ℕ, zero, suc, ◌<◌, ◌≡◌, refl, ap, ◌∙◌, true, false, Option, none, some, List, [], ◌∷◌, map, Text,
  String, same, same_sound, same_refl, some_of, arith, Option-cases, Bool-cases, inl, inr,
}
use adonis_authkit.Prelude.Words.{trim}
use adonis_authkit.Db.{Table}
use adonis_authkit.Db.Finding.{first-keep-not}
use adonis_authkit.Mfa.{
  MfaState, MfaContext, has_account, is_set, filled, pending, confirmed, read, upsert,
  get_mfa_state, started, start_totp_enrollment, secret_of, confirm_totp_enrollment, verify_totp,
  consume_recovery_code, disable_mfa,
}
use adonis_authkit.Mfa.Rows.{read-upsert, upsert-found, read-patched, patched}
use adonis_authkit.Mfa.Recovery.{known, consume_recovery_code-known}

known-member :
    (f : Text → Text) (code : Text) (codes : List Text)
    → some_of (same code) codes ≡ true
    → known (f code) (map f codes) ≡ true
known-member f code [] e = absurd (cc e)
known-member f code (c ∷ codes) e = elim (Bool-cases (same code c)) [
  | inl here ↦ rw (same_sound code c here, same_refl (f c)) refl
  | inr there ↦ ground (arith, known-member f code codes)
]

pub is_set-positive : (n : ℕ) → 0 < n → is_set (some n) ≡ true
is_set-positive zero h = absurd (omega arith)
is_set-positive (suc n) h = refl

module _ (db : Table MfaState) (ctx : MfaContext) (id : String) where
  -- What is sealed can be opened, and no secret is empty.
  pub record Seals (secret : Text) : Type 0 where
    pub opens : ctx.open_secret (ctx.seal_secret secret) ≡ some secret
    pub sealed_text : filled (some (ctx.seal_secret secret)) ≡ some (ctx.seal_secret secret)
    pub secret_text : filled (some secret) ≡ some secret

  abbrev row : db.State → Option MfaState
  row w = read db ctx id w

  start_totp_enrollment-pending :
      (email secret uri : Text) (w u : db.State)
      → start_totp_enrollment db ctx id (some email) secret w ≡ (started secret uri, u)
      → (x : MfaState) × (row u ≡ some (pending (ctx.seal_secret secret) x))
  unfolding start_totp_enrollment
  start_totp_enrollment-pending email secret uri w u e =
      elim (Option-cases (upsert db ctx id (pending (ctx.seal_secret secret)) w)) [
        | inl threw ↦ absurd (cc (rw (start_totp_enrollment, threw) at e))
        | inr (v, saved) ↦
            let same_ : v ≡ u = ap (λ p. p.1) (rw (start_totp_enrollment, saved) at e) in
            read-upsert db ctx id (pending (ctx.seal_secret secret)) w u (λ y. refl)
              (saved ∙ ap some same_)
      ]

  -- The start of an enrolment switches the second factor off, also where one was active, and drops
  -- its recovery codes, before anything is confirmed.
  pub start_totp_enrollment-disables :
      (email secret uri : Text) (w u : db.State)
      → start_totp_enrollment db ctx id (some email) secret w ≡ (started secret uri, u)
      → (code : Text) (now : ℕ)
      → (get_mfa_state db ctx id u ≡ (false, none))
        × (verify_totp db ctx id code now u ≡ (some false, u))
        × (consume_recovery_code db ctx id code u ≡ (some false, u))
  unfolding verify_totp consume_recovery_code
  start_totp_enrollment-disables email secret uri w u e code now =
      let (x, found) = start_totp_enrollment-pending email secret uri w u e in
      (
        rw (get_mfa_state, found) refl,
        rw (verify_totp, found) refl,
        rw (consume_recovery_code, found) refl,
      )

  -- An enrolment that was started and confirmed by a code that the app accepts switches the second
  -- factor on, and each recovery code that it gave is accepted.
  pub confirm_totp_enrollment-enables :
      (email secret uri code recovery : Text) (codes : List Text) (now : ℕ) (w u : db.State)
      → Seals secret
      → start_totp_enrollment db ctx id (some email) secret w ≡ (started secret uri, u)
      → ctx.verify_token code secret now ≡ true
      → 0 < now
      → some_of (same recovery) codes ≡ true
      → trim recovery ≡ recovery
      → let (answer, v) = confirm_totp_enrollment db ctx id code codes now u in
        (answer ≡ some (some codes))
        × (get_mfa_state db ctx id v ≡ (true, some now))
        × ((consume_recovery_code db ctx id recovery v).0 ≡ some true)
  unfolding confirm_totp_enrollment
  confirm_totp_enrollment-enables email secret uri code recovery codes now w u seals e valid
        positive member trimmed =
      let (x, found) = start_totp_enrollment-pending email secret uri w u e in
      let hashes = map ctx.sha256 codes in
      let own : secret_of db ctx (row u) ≡ some secret =
        rw (found, seals.sealed_text, seals.opens) seals.secret_text in
      let saved =
        upsert-found db ctx id (confirmed now hashes) u {row = pending (ctx.seal_secret secret) x}
          found in
      let done_ : confirm_totp_enrollment db ctx id code codes now u
          ≡ (some (some codes), patched db ctx id (confirmed now hashes) u) =
        rw (confirm_totp_enrollment, own, valid, saved) refl in
      let after =
        read-patched db ctx id (confirmed now hashes) u {row = pending (ctx.seal_secret secret) x}
          (λ y. refl) found in
      let on = is_set-positive now positive in
      (
        ap (λ p. p.0) done_,
        rw (done_, get_mfa_state, after, on) refl,
        rw (done_) (
            consume_recovery_code-known db ctx id recovery
              (patched db ctx id (confirmed now hashes) u) hashes (rw (after, on) refl)
            ∙ ap some (
                ap (λ t. known (ctx.sha256 t) hashes) trimmed
                ∙ known-member ctx.sha256 recovery codes member)),
      )

  -- Once it is disabled, there is no second factor to present.
  pub disable_mfa-refuses :
      (code : Text) (now : ℕ) (w : db.State)
      → let u = disable_mfa db ctx id w in
        (get_mfa_state db ctx id u ≡ (false, none))
        × (verify_totp db ctx id code now u ≡ (some false, u))
        × (consume_recovery_code db ctx id code u ≡ (some false, u))
        × (confirm_totp_enrollment db ctx id code [] now u ≡ (some none, u))
  unfolding verify_totp consume_recovery_code confirm_totp_enrollment
  disable_mfa-refuses code now w =
      let gone : row (disable_mfa db ctx id w) ≡ none =
        rw (db.rows_delete) (first-keep-not (has_account id) (db.rows w)) in
      (
        rw (get_mfa_state, gone) refl,
        rw (verify_totp, gone) refl,
        rw (consume_recovery_code, gone) refl,
        rw (confirm_totp_enrollment, gone) refl,
      )
