-- ===== src/Mfa/Recovery.antt =====
-- mfa.ts, consumeRecoveryCode: what one attempt does.
use adonis_authkit.Prelude.{
  ◌≤◌, ◌<◌, ◌≡◌, refl, sym, ap, ◌∙◌, Bool, true, false, not, Option, none, some, List, [], ◌∷◌,
  Text, String, same, same_sound, length, keep, some_of, ◌==◌, arith, Option-cases, Bool-cases, inl,
  inr,
}
use adonis_authkit.Prelude.Words.{trim}
use adonis_authkit.Db.{Table}
use adonis_authkit.Mfa.{
  MfaState, MfaContext, read, with_codes, codes_of, is_set, remaining, consume_recovery_code,
}
use adonis_authkit.Mfa.Rows.{upsert-found, read-patched}

-- The codes of which the hash is this one.
abbrev pub known : Text → List Text → Bool
known target codes = some_of (λ h. same h target) codes

length-remaining :
    (target : Text) (codes : List Text)
    → length (keep (λ h. not (same h target)) codes) ≤ length codes
length-remaining target [] = omega arith
length-remaining target (c ∷ codes) = ground (arith, length-remaining target codes)

-- The list gets shorter exactly where the code was in it.
pub unchanged-known :
    (target : Text) (codes : List Text)
    → (length (keep (λ h. not (same h target)) codes) == length codes) ≡ not (known target codes)
unchanged-known target [] = refl
unchanged-known target (c ∷ codes) =
    ground (arith, unchanged-known target codes, length-remaining target codes)

pub length-remaining-known :
    (target : Text) (codes : List Text)
    → known target codes ≡ true
    → length (keep (λ h. not (same h target)) codes) < length codes
length-remaining-known target [] e = absurd (cc e)
length-remaining-known target (c ∷ codes) e =
    ground (arith, length-remaining-known target codes, length-remaining target codes)

known-remaining :
    (target : Text) (codes : List Text)
    → known target (keep (λ h. not (same h target)) codes) ≡ false
known-remaining target [] = refl
known-remaining target (c ∷ codes) = ground (arith, known-remaining target codes)

known-remaining-other :
    (target other : Text) (codes : List Text)
    → same target other ≡ false
    → known other (keep (λ h. not (same h target)) codes) ≡ known other codes
known-remaining-other target other [] e = refl
known-remaining-other target other (c ∷ codes) e = elim (Bool-cases (same c target)) [
  | inl here ↦ ground (
    arith,
    known-remaining-other target other codes e,
    ap (λ t. same t other) (same_sound c target here),
  )
  | inr there ↦ ground (arith, known-remaining-other target other codes e)
]

module _ (db : Table MfaState) (ctx : MfaContext) (id : String) where
  abbrev row : db.State → Option MfaState
  row w = read db ctx id w

  abbrev pub target_of : Text → Text
  target_of code = ctx.sha256 (trim code)

  row-codes :
      (r : Option MfaState) {codes : List Text}
      → codes_of db ctx r ≡ some codes
      → (x : MfaState) × (r ≡ some x) × (codes_of db ctx (some x) ≡ some codes)
  row-codes none e = absurd (cc e)
  row-codes (some x) e = (x, refl, e)

  -- Codes that replace others are the codes of the row, where the factor is on.
  codes_of-with_codes :
      (x : MfaState) (codes left : List Text)
      → codes_of db ctx (some x) ≡ some codes
      → codes_of db ctx (some (with_codes left x)) ≡ some left
  codes_of-with_codes x codes left e = elim (Bool-cases (is_set x.mfa_enabled_at)) [
    | inl on ↦ rw (on) refl
    | inr off ↦ absurd (cc (rw (off) at e))
  ]

  -- A refusal changes nothing, and what is accepted leaves the list.
  pub data CodeVerdict (code : Text) (w : db.State) : Type 0 where
    kept : (consume_recovery_code db ctx id code w) ≡ (some false, w) → CodeVerdict code w
    used :
        (codes : List Text)
        → codes_of db ctx (row w) ≡ some codes
        → known (target_of code) codes ≡ true
        → (consume_recovery_code db ctx id code w).0 ≡ some true
        → (x : MfaState) → row w ≡ some x
        → row (consume_recovery_code db ctx id code w).1
          ≡ some (with_codes (remaining db ctx (target_of code) codes) x)
        → codes_of db ctx (row (consume_recovery_code db ctx id code w).1)
          ≡ some (remaining db ctx (target_of code) codes)
        → CodeVerdict code w

  pub code_verdict : (code : Text) (w : db.State) → CodeVerdict code w
  unfolding consume_recovery_code
  code_verdict code w = elim (Option-cases (codes_of db ctx (row w))) [
    | inl off ↦ kept (rw (consume_recovery_code, off) refl)
    | inr (codes, on) ↦ elim (Bool-cases (known (target_of code) codes)) [
      | inr unknown ↦
          kept
            (rw (consume_recovery_code, on, unchanged-known (target_of code) codes, unknown) refl)
      | inl listed ↦
          let (x, found, own) = row-codes (row w) {codes = codes} on in
          let left = remaining db ctx (target_of code) codes in
          let saved = upsert-found db ctx id (with_codes left) w {row = x} found in
          let after : row (consume_recovery_code db ctx id code w).1 ≡ some (with_codes left x) =
            rw (consume_recovery_code, on, unchanged-known (target_of code) codes, listed, saved)
              (read-patched db ctx id (with_codes left) w {row = x} (λ y. refl) found) in
          used codes on listed
            (rw (consume_recovery_code, on, unchanged-known (target_of code) codes, listed, saved)
              refl)
            x found after (rw (after) (codes_of-with_codes x codes left own))
    ]
  ]

  -- The answer, where there are codes at all.
  pub consume_recovery_code-known :
      (code : Text) (w : db.State) (codes : List Text)
      → codes_of db ctx (row w) ≡ some codes
      → (consume_recovery_code db ctx id code w).0 ≡ some (known (target_of code) codes)
  unfolding consume_recovery_code
  consume_recovery_code-known code w codes on = elim (Bool-cases (known (target_of code) codes)) [
    | inr unknown ↦
        rw (consume_recovery_code, on, unchanged-known (target_of code) codes, unknown) refl
    | inl listed ↦
        let (x, found, _) = row-codes (row w) {codes = codes} on in
        rw
          (
            consume_recovery_code,
            on,
            unchanged-known (target_of code) codes,
            listed,
            upsert-found db ctx id (with_codes (remaining db ctx (target_of code) codes)) w
                {row = x} found,
          )
          refl
  ]

  -- A recovery code that was accepted is refused from then on, and every code of another hash is
  -- answered as before.
  pub consume_recovery_code-once :
      (code other : Text) (w : db.State)
      → same (target_of code) (target_of other) ≡ false
      → (consume_recovery_code db ctx id code w).0 ≡ some true
      → ((consume_recovery_code db ctx id code (consume_recovery_code db ctx id code w).1).0
          ≡ some false)
        × ((consume_recovery_code db ctx id other (consume_recovery_code db ctx id code w).1).0
            ≡ (consume_recovery_code db ctx id other w).0)
  consume_recovery_code-once code other w apart e = elim (code_verdict code w) [
    | kept none_ ↦ absurd (cc (sym e ∙ ap (λ p. p.0) none_))
    | used codes on listed granted x found after left ↦
        let u = (consume_recovery_code db ctx id code w).1 in
        (
          consume_recovery_code-known code u (remaining db ctx (target_of code) codes) left
              ∙ ap some (known-remaining (target_of code) codes),
          consume_recovery_code-known other u (remaining db ctx (target_of code) codes) left
              ∙ ap some (known-remaining-other (target_of code) (target_of other) codes apart)
              ∙ sym (consume_recovery_code-known other w codes on),
        )
  ]
