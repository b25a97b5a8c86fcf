-- ===== src/Mfa/Runs.antt =====
-- mfa.ts: any run of attempts with second factors, whatever their order.
use adonis_authkit.Prelude.{
  ℕ, ◌+◌, ◌≤◌, ◌≡◌, sym, ap, ◌∙◌, Bool, true, false, Option, none, some, List, [], ◌∷◌, Text,
  String, length, arith,
}
use adonis_authkit.Prelude.Integers.{ℤ, Before, Before-of_not-leb_ℤ}
use adonis_authkit.Db.{Table}
use adonis_authkit.Mfa.{
  MfaState, MfaContext, read, is_replay, last_step, verify_totp, codes_of, remaining,
  consume_recovery_code,
}
use adonis_authkit.Mfa.Rows.{totp, recovery_code, Attempt, accepted, present}
use adonis_authkit.Mfa.Replay.{presented, refused, granted, verdict}
use adonis_authkit.Mfa.Recovery.{kept, used, code_verdict, length-remaining-known, target_of}

module _ (db : Table MfaState) (ctx : MfaContext) (id : String) where
  abbrev step_of : Attempt → db.State → Option ℤ
  step_of (totp code now) w = presented db ctx id code now w
  step_of (recovery_code code) w = none

  abbrev add_step : Bool → Option ℤ → List ℤ → List ℤ
  add_step true (some step) steps = step ∷ steps
  add_step _ _ steps = steps

  -- The time steps of the codes that are accepted, in order.
  unfoldable pub accepted_steps : List Attempt → db.State → List ℤ
  accepted_steps [] w = []
  accepted_steps (a ∷ rest) w =
      let (answer, u) = present db ctx id a w in
      add_step (accepted answer) (step_of a w) (accepted_steps rest u)

  -- A step that is later than the one on record, if there is one.
  abbrev pub IsLater : Option ℤ → ℤ → Type 0
  IsLater none step = Unit
  IsLater (some last) step = Before last step

  IsLater-of_not-is_replay :
      (last : Option ℤ) (step : ℤ) → is_replay step last ≡ false → IsLater last step
  IsLater-of_not-is_replay none step new = tt
  IsLater-of_not-is_replay (some last) step new = Before-of_not-leb_ℤ last step new

  -- Each step is later than the one before it, and the first later than the one on record.
  abbrev pub IsIncreasing : Option ℤ → List ℤ → Type 0
  IsIncreasing last [] = Unit
  IsIncreasing last (step ∷ steps) = IsLater last step × IsIncreasing (some step) steps

  abbrev recorded : db.State → Option ℤ
  recorded w = last_step db ctx (read db ctx id w)

  -- In any run of attempts, the codes that are accepted belong to ever later time steps: none is
  -- accepted twice, nor one older than another that was.
  pub accepted_steps-IsIncreasing :
      (attempts : List Attempt) (w : db.State)
      → IsIncreasing (recorded w) (accepted_steps attempts w)
  unfolding accepted_steps
  accepted_steps-IsIncreasing [] w = tt
  accepted_steps-IsIncreasing (totp code now ∷ rest) w = elim (verdict db ctx id code now w) [
    | refused no_ same_ ↦ rw (no_, same_) (accepted_steps-IsIncreasing rest w)
    | granted step shown new good x found after ↦
        let u = (verify_totp db ctx id code now w).1 in
        let on_record : recorded u ≡ some step = ap (last_step db ctx) after in
        rw (good, shown)
          (
            IsLater-of_not-is_replay (recorded w) step new,
            rw (on_record) at (accepted_steps-IsIncreasing rest u),
          )
  ]
  accepted_steps-IsIncreasing (recovery_code code ∷ rest) w = elim (code_verdict db ctx id code w) [
    | kept same_ ↦ rw (same_) (accepted_steps-IsIncreasing rest w)
    | used codes on listed good x found after left ↦
        let u = (consume_recovery_code db ctx id code w).1 in
        let on_record : recorded u ≡ recorded w =
          ap (last_step db ctx) after ∙ sym (ap (last_step db ctx) found) in
        rw (good) (rw (on_record) at (accepted_steps-IsIncreasing rest u))
  ]

  abbrev one_if : Bool → ℕ
  one_if true = 1
  one_if false = 0

  -- The number of recovery codes that are accepted.
  unfoldable pub recovered : List Attempt → db.State → ℕ
  recovered [] w = 0
  recovered (totp code now ∷ rest) w = recovered rest (verify_totp db ctx id code now w).1
  recovered (recovery_code code ∷ rest) w =
      let (answer, u) = consume_recovery_code db ctx id code w in
      one_if (accepted answer) + recovered rest u

  abbrev pub codes_left : Option (List Text) → ℕ
  codes_left none = 0
  codes_left (some codes) = length codes

  abbrev stored_codes : db.State → Option (List Text)
  stored_codes w = codes_of db ctx (read db ctx id w)

  -- In any run of attempts, no more recovery codes are accepted than are stored for the account at
  -- its start.
  pub recovery_bound :
      (attempts : List Attempt) (w : db.State) → recovered attempts w ≤ codes_left (stored_codes w)
  unfolding recovered
  recovery_bound [] w = omega arith
  recovery_bound (totp code now ∷ rest) w = elim (verdict db ctx id code now w) [
    | refused no_ same_ ↦ rw (same_) (recovery_bound rest w)
    | granted step shown new good x found after ↦
        let u = (verify_totp db ctx id code now w).1 in
        let same_codes : stored_codes u ≡ stored_codes w =
          ap (codes_of db ctx) after ∙ sym (ap (codes_of db ctx) found) in
        rw (same_codes) at (recovery_bound rest u)
  ]
  recovery_bound (recovery_code code ∷ rest) w = elim (code_verdict db ctx id code w) [
    | kept same_ ↦ let bound = recovery_bound rest w in rw (same_) (omega (arith, bound))
    | used codes on listed good x found after left ↦
        let u = (consume_recovery_code db ctx id code w).1 in
        let rest_bound : recovered rest u
            ≤ length (remaining db ctx (target_of db ctx id code) codes) =
          rw (left) at (recovery_bound rest u) in
        rw (good, on)
          (omega
            (arith, rest_bound, length-remaining-known (target_of db ctx id code) codes listed))
  ]
