-- ===== src/Sudo.antt =====
-- Sudo mode and impersonation: packages/authkit-server/src/host/sudo_mode.ts and
-- impersonation_session.ts. A session is its id and the entries that this code reads and writes.
pub mod Binding
pub mod Gate
mod Tests
use adonis_authkit.Prelude.{
  ℕ, ◌+◌, ◌*◌, ◌≡◌, Bool, true, false, not, ◌&&◌, ◌||◌, Option, none, some, List, [], ◌∷◌, ◌++◌,
  if◌then◌else◌, leb, ltb, ◌==◌, str_eq, String, Text, starts_with, same,
}
use adonis_authkit.Settings.{RawSetting, object, throws, bool_or}
use adonis_authkit.Prelude.Integers.{SettingNumber, floor_or}

pub record Session : Type 0 where
  pub session_id : String
  pub account : Option String
  pub sudo_at : Option ℕ
  pub sudo_account : Option String
  pub impersonator : Option String
  pub admin_access_token : Option String
  pub admin_refresh_token : Option String

-- `if (!id)`: a missing and an empty string are alike.
abbrev pub non_empty : Option String → Option String
non_empty none = none
non_empty (some s) = if str_eq s "" then none else some s

pub record SudoModeSetting : Type 0 where
  pub enabled : Option Bool
  pub grace_minutes : Option SettingNumber

pub record ResolvedSudoModeSetting : Type 0 where
  pub enabled : Bool
  pub grace_minutes : ℕ

abbrev pub sudo_mode_defaults : ResolvedSudoModeSetting
sudo_mode_defaults = record { enabled = true; grace_minutes = 15 }

pub resolve_effective_sudo_mode : RawSetting SudoModeSetting → ResolvedSudoModeSetting
resolve_effective_sudo_mode (object s) = record {
  enabled = bool_or true s.enabled;
  grace_minutes = floor_or 0 15 s.grace_minutes;
}
resolve_effective_sudo_mode _ = sudo_mode_defaults

pub mark_sudo : ℕ → Session → Session
mark_sudo now s = record s { sudo_at = some now; sudo_account = non_empty s.account }

within_grace : Option ℕ → ℕ → ℕ → Bool
within_grace none grace_minutes now = false
within_grace (some at_ms) grace_minutes now =
    not (at_ms == 0) && leb now (at_ms + grace_minutes * 60 * 1000)

bound_to : Option String → Option String → Bool
bound_to (some owner) (some current) = str_eq owner current
bound_to _ _ = false

pub is_sudo_active : Session → ℕ → ℕ → Bool
unfolding within_grace bound_to
is_sudo_active s grace_minutes now =
    bound_to (non_empty s.sudo_account) (non_empty s.account)
    && within_grace s.sudo_at grace_minutes now

-- The guard lets the request through, or redirects to the confirmation with a `return_to`.
pub data SudoGate : Type 0 where
  allowed : SudoGate
  confirm : Option Text → SudoGate

-- The `settings` argument: none, or the setting as it is read.
abbrev pub sudo_config : Option (RawSetting SudoModeSetting) → ResolvedSudoModeSetting
sudo_config none = sudo_mode_defaults
sudo_config (some raw) = resolve_effective_sudo_mode raw

-- `encode` is `encodeURIComponent` and `confirm_path` is `accountPath('confirm')`.
pub return_to : (Text → Text) → Text → Text → Text → Option Text
return_to encode confirm_path url query =
    let dest = url ++ query in
    if (same dest [] || same dest (b'/' ∷ [])) || starts_with confirm_path dest
    then none
    else some (encode dest)

pub require_sudo :
    (Text → Text)
    → Text
    → Option (RawSetting SudoModeSetting)
    → Session
    → Text
    → Text
    → ℕ
    → SudoGate
require_sudo encode confirm_path settings s url query now =
    let cfg = sudo_config settings in
    if not cfg.enabled || is_sudo_active s cfg.grace_minutes now
    then allowed
    else confirm (return_to encode confirm_path url query)

-- The answer of the token endpoint to an exchange, and to a refresh.
pub data Exchange : Type 0 where
  granted : Exchange
  status : ℕ → Exchange
  network_error : Exchange

pub data Refresh : Type 0 where
  tokens : String → Option String → Refresh
  no_tokens : Refresh
  refresh_error : Refresh

pub data StartError : Type 0 where
  already_active no_access_token no_account_session rejected : StartError

pub data StartResult : Type 0 where
  started : StartResult
  threw : StartError → StartResult

abbrev pub regenerate : String → Session → Session
regenerate new_id s = record s { session_id = new_id }

-- A 4xx answer is tried again after a refresh.
abbrev pub may_retry : Exchange → Bool
may_retry (status n) = leb 400 n && leb n 499
may_retry _ = false

abbrev pub kept_refresh_token : Option String → Option String → Option String
kept_refresh_token none old = old
kept_refresh_token (some new) old = some new

-- `exchange` and `refresh` are the calls of the identity provider, and `new_id` is the id that the
-- regeneration draws.
module _ (exchange : String → String → Exchange) (refresh : String → Refresh)
    (new_id : String) where
  abbrev switched : String → String → Session → Session
  switched admin target s = record (regenerate new_id s) {
    impersonator = some admin;
    account = some target;
  }

  pub refresh_access_token : Session → Refresh
  refresh_access_token s = elim (non_empty s.admin_refresh_token) [
    | none ↦ no_tokens
    | some token ↦ refresh token
  ]

  abbrev finish : Exchange → String → String → Session → Session × StartResult
  finish granted admin target s = (switched admin target s, started)
  finish _ admin target s = (s, threw rejected)

  pub retry : Refresh → String → String → Session → Session × StartResult
  retry (tokens access rotated) admin target s =
      finish (exchange access target) admin target (record s {
        admin_access_token = some access;
        admin_refresh_token = kept_refresh_token rotated s.admin_refresh_token;
      })
  retry _ admin target s = (s, threw rejected)

  pub exchanged : Exchange → String → String → Session → Session × StartResult
  unfolding retry refresh_access_token
  exchanged granted admin target s = (switched admin target s, started)
  exchanged answer admin target s =
      if may_retry answer
      then retry (refresh_access_token s) admin target s
      else (s, threw rejected)

  pub start_impersonation : String → Session → Session × StartResult
  unfolding exchanged
  start_impersonation target s = elim (non_empty s.impersonator) [
    | some active ↦ (s, threw already_active)
    | none ↦ elim (non_empty s.admin_access_token) [
      | none ↦ (s, threw no_access_token)
      | some token ↦ elim (non_empty s.account) [
        | none ↦ (s, threw no_account_session)
        | some admin ↦ exchanged (exchange token target) admin target s
      ]
    ]
  ]

pub stop_impersonation : String → Session → Session
stop_impersonation new_id s = elim (non_empty s.impersonator) [
  | none ↦ s
  | some admin ↦ record (regenerate new_id s) { account = some admin; impersonator = none }
]

pub record ImpersonationState : Type 0 where
  pub active : Bool
  pub target_id : Option String
  pub impersonator_id : Option String

pub impersonation_state : Session → ImpersonationState
impersonation_state s = elim (non_empty s.impersonator) [
  | none ↦ record { active = false; target_id = none; impersonator_id = none }
  | some admin ↦ record { active = true; target_id = s.account; impersonator_id = some admin }
]
