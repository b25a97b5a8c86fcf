-- ===== src/Mfa.antt =====
-- Second factors of an account: packages/authkit-server/src/accounts/lucid_store/mfa.ts, over the
-- table `auth_mfa` (buildMfaStateRepo in shared.ts). What otplib does is a parameter.
pub mod Replay
pub mod Recovery
pub mod Lifecycle
pub mod Rows
pub mod Runs
mod Tests
use adonis_authkit.Prelude.{
  ℕ, zero, suc, ◌*◌, ◌/◌, Bool, true, false, not, Option, none, some, List, [], ◌∷◌, map, Text,
  same, String, str_eq, first, some_of, keep, length, ◌==◌, if◌then◌else◌,
}
use adonis_authkit.Prelude.Integers.{ℤ, add_offset, leb_ℤ}
use adonis_authkit.Prelude.Words.{trim}
use adonis_authkit.Db.{Table}

-- A row of `auth_mfa`, with its columns parsed.
pub record MfaState : Type 0 where
  pub account_id : String
  pub totp_secret : Option Text
  pub mfa_enabled_at : Option ℕ
  pub recovery_codes : Option (List Text)
  pub last_totp_step : Option ℤ

-- `seal_secret` and `open_secret` encrypt at rest; the other functions are those of otplib, with
-- the time that they look at. `period` is in seconds.
pub record MfaContext : Type 0 where
  pub seal_secret : Text → Text
  pub open_secret : Text → Option Text
  pub sha256 : Text → Text
  pub keyuri : Text → Text → Text
  pub verify_token : Text → Text → ℕ → Bool
  pub check_delta : Text → Text → ℕ → Option ℤ
  pub period : ℕ

-- `!!x`: a time of zero counts as none, and so does an empty text.
abbrev pub is_set : Option ℕ → Bool
is_set none = false
is_set (some zero) = false
is_set (some (suc n)) = true

abbrev pub filled : Option Text → Option Text
filled none = none
filled (some []) = none
filled (some (c ∷ s)) = some (c ∷ s)

abbrev pub has_account : String → MfaState → Bool
has_account id row = str_eq row.account_id id

abbrev pub empty_row : String → MfaState
empty_row id = record {
  account_id = id;
  totp_secret = none;
  mfa_enabled_at = none;
  recovery_codes = none;
  last_totp_step = none;
}

abbrev pub pending : Text → MfaState → MfaState
pending sealed r = record r {
  totp_secret = some sealed;
  mfa_enabled_at = none;
  recovery_codes = none;
  last_totp_step = none;
}

abbrev pub confirmed : ℕ → List Text → MfaState → MfaState
confirmed now hashes r = record r { mfa_enabled_at = some now; recovery_codes = some hashes }

abbrev pub with_step : ℤ → MfaState → MfaState
with_step step r = record r { last_totp_step = some step }

abbrev pub with_codes : List Text → MfaState → MfaState
with_codes hashes r = record r { recovery_codes = some hashes }

-- A step that was accepted, or one before it.
abbrev pub is_replay : ℤ → Option ℤ → Bool
is_replay step none = false
is_replay step (some last) = leb_ℤ step last

module _ (db : Table MfaState) (ctx : MfaContext) where
  abbrev pub read : String → db.State → Option MfaState
  read id w = first (has_account id) (db.rows w)

  -- An update, or an insertion where no row was updated, which may throw (`none`).
  unfoldable pub upsert : String → (MfaState → MfaState) → db.State → Option db.State
  upsert id patch w =
      if some_of (has_account id) (db.rows w)
      then some (db.update (has_account id) patch w)
      else db.insert (patch (empty_row id)) w

  abbrev pub clear : String → db.State → db.State
  clear id w = db.delete (has_account id) w

  abbrev pub enabled : Option MfaState → Bool
  enabled none = false
  enabled (some row) = is_set row.mfa_enabled_at

  abbrev pub enabled_at : Option MfaState → Option ℕ
  enabled_at none = none
  enabled_at (some row) = row.mfa_enabled_at

  abbrev pub get_mfa_state : String → db.State → Bool × Option ℕ
  get_mfa_state id w = (enabled (read id w), enabled_at (read id w))

  pub data Enrollment : Type 0 where
    unknown_account insert_failed : Enrollment
    started : Text → Text → Enrollment

  -- `email` is the address of the account, where there is one, and `secret` is drawn.
  unfoldable pub start_totp_enrollment :
      String → Option Text → Text → db.State → Enrollment × db.State
  unfolding upsert
  start_totp_enrollment id none secret w = (unknown_account, w)
  start_totp_enrollment id (some email) secret w =
      elim (upsert id (pending (ctx.seal_secret secret)) w) [
        | none ↦ (insert_failed, w)
        | some w' ↦ (started secret (ctx.keyuri email secret), w')
      ]

  -- The secret of a row, opened.
  abbrev pub opened : Option Text → Option Text
  opened none = none
  opened (some sealed) = filled (ctx.open_secret sealed)

  abbrev pub secret_of : Option MfaState → Option Text
  secret_of none = none
  secret_of (some row) = opened (filled row.totp_secret)

  abbrev pub active_secret_of : Option MfaState → Option Text
  active_secret_of none = none
  active_secret_of (some row) = if is_set row.mfa_enabled_at then secret_of (some row) else none

  -- A write that throws is no result.
  abbrev pub written {ℓ} : {A : Type ℓ} → A → Option db.State → db.State → Option A × db.State
  written a none w = (none, w)
  written a (some w') w = (some a, w')

  -- `codes` are drawn. `some none` is a refusal.
  unfoldable pub confirm_totp_enrollment :
      String → Text → List Text → ℕ → db.State → Option (Option (List Text)) × db.State
  unfolding upsert
  confirm_totp_enrollment id code codes now w = elim (secret_of (read id w)) [
    | none ↦ (some none, w)
    | some secret ↦
        if ctx.verify_token code secret now
        then written (some codes) (upsert id (confirmed now (map ctx.sha256 codes)) w) w
        else (some none, w)
  ]

  -- The absolute step of a token: that of now, and the offset in the window.
  abbrev pub token_step : ℕ → ℤ → ℤ
  token_step now delta = add_offset (now / (1000 * ctx.period)) delta

  abbrev pub last_step : Option MfaState → Option ℤ
  last_step none = none
  last_step (some row) = row.last_totp_step

  unfoldable pub verify_totp : String → Text → ℕ → db.State → Option Bool × db.State
  unfolding upsert
  verify_totp id code now w = elim (active_secret_of (read id w)) [
    | none ↦ (some false, w)
    | some secret ↦ elim (ctx.check_delta code secret now) [
      | none ↦ (some false, w)
      | some delta ↦
          if is_replay (token_step now delta) (last_step (read id w))
          then (some false, w)
          else written true (upsert id (with_step (token_step now delta)) w) w
    ]
  ]

  abbrev pub codes_of : Option MfaState → Option (List Text)
  codes_of none = none
  codes_of (some row) = if is_set row.mfa_enabled_at then row.recovery_codes else none

  abbrev pub remaining : Text → List Text → List Text
  remaining target codes = keep (λ h. not (same h target)) codes

  unfoldable pub consume_recovery_code : String → Text → db.State → Option Bool × db.State
  unfolding upsert trim
  consume_recovery_code id code w = elim (codes_of (read id w)) [
    | none ↦ (some false, w)
    | some codes ↦
        let left = remaining (ctx.sha256 (trim code)) codes in
        if length left == length codes
        then (some false, w)
        else written true (upsert id (with_codes left) w) w
  ]

  abbrev pub disable_mfa : String → db.State → db.State
  disable_mfa id w = clear id w
