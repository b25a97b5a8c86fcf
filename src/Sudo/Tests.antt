-- ===== src/Sudo/Tests.antt =====
-- Runs of sudo mode and impersonation, and the theorems at concrete sessions.
use adonis_authkit.Prelude.{
  ◌≡◌, ◌≢◌, ◌≢◌, ◌↔◌, ◌⊎◌, refl, true, false, Option, none, some, List, [], ◌∷◌, String, Text,
  codes, str_eq,
}
use adonis_authkit.Settings.{RawSetting, object, throws}
use adonis_authkit.Prelude.Integers.{whole, pos}
use adonis_authkit.Sudo.{
  Session, non_empty, SudoModeSetting, sudo_config, is_sudo_active, allowed, confirm, return_to,
  require_sudo, Exchange, granted, status, Refresh, tokens, started, start_impersonation,
  stop_impersonation, mark_sudo,
}
use adonis_authkit.Sudo.Binding.{
  Event, mark, start, stop, step, run, IsConfirmed, sudo_active-IsConfirmed,
  start_impersonation-failed, stop-start,
}
use adonis_authkit.Sudo.Gate.{require_sudo-allowed_iff, require_sudo-throws}

-- The provider refuses the old token, and grants the refreshed one.
abbrev exchange : String → String → Exchange
exchange token target = elim (str_eq token "new") [ true ↦ granted | false ↦ status 401 ]

abbrev refuse : String → String → Exchange
refuse token target = status 403

abbrev refresh : String → Refresh
refresh token = tokens "new" none

abbrev admin : Session
admin = record {
  session_id = "s0";
  account = some "ann";
  sudo_at = none;
  sudo_account = none;
  impersonator = none;
  admin_access_token = some "old";
  admin_refresh_token = some "r";
}

abbrev events : List Event
events = mark 1000 ∷ start "s1" "bob" ∷ stop "s2" ∷ []

all_sudo : Unit {0}
unfolding run step start_impersonation stop_impersonation mark_sudo is_sudo_active
all_sudo = tt

-- While impersonating the mark does not count; afterwards it counts again.
while_impersonating :
    (is_sudo_active (run exchange refresh (mark 1000 ∷ start "s1" "bob" ∷ []) (admin, [])).0 15 1001
      ≡ false)
    × (is_sudo_active (run exchange refresh events (admin, [])).0 15 1001 ≡ true)
unfolding all_sudo
while_impersonating = (refl, refl)

sudo_active-IsConfirmed_example :
    IsConfirmed exchange refresh
      (run exchange refresh events (admin, [])).0
      (run exchange refresh events (admin, [])).1
      15
      1001
sudo_active-IsConfirmed_example =
    sudo_active-IsConfirmed exchange refresh admin events 15 1001 refl while_impersonating.1

refused_start : (start_impersonation refuse refresh "s1" "bob" admin).1 ≢ started
unfolding start_impersonation
refused_start e = cc

start_impersonation-failed_example :
    let t = (start_impersonation refuse refresh "s1" "bob" admin).0 in
    (t.account ≡ admin.account)
    × (t.impersonator ≡ admin.impersonator)
    × (t.session_id ≡ admin.session_id)
    × (t.sudo_at ≡ admin.sudo_at)
    × (t.sudo_account ≡ admin.sudo_account)
start_impersonation-failed_example =
    start_impersonation-failed refuse refresh "s1" "bob" admin refused_start

granted_start : (start_impersonation exchange refresh "s1" "bob" admin).1 ≡ started
unfolding start_impersonation
granted_start = refl

stop-start_example :
    let t = (start_impersonation exchange refresh "s1" "bob" admin).0 in
    let u = stop_impersonation "s2" t in
    (t.account ≡ some "bob")
    × (t.impersonator ≡ admin.account)
    × (non_empty admin.account ≢ none)
    × (non_empty admin.admin_access_token ≢ none)
    × (non_empty admin.impersonator ≡ none)
    × (u.account ≡ admin.account)
    × (u.impersonator ≡ none)
    × (u.sudo_at ≡ admin.sudo_at)
    × (u.sudo_account ≡ admin.sudo_account)
stop-start_example = stop-start exchange refresh "s1" "s2" "bob" admin granted_start

abbrev short_grace : Option (RawSetting SudoModeSetting)
short_grace = some (object (record { enabled = none; grace_minutes = some (whole (pos 1)) }))

abbrev plain : Text → Text
plain t = t

require_sudo-allowed_iff_run :
    (require_sudo plain (codes "/account/confirm") short_grace admin (codes "/x") [] 5 ≡ allowed)
    ↔ (((sudo_config short_grace).enabled ≡ false)
        ⊎ (is_sudo_active admin (sudo_config short_grace).grace_minutes 5 ≡ true))
require_sudo-allowed_iff_run =
    require_sudo-allowed_iff plain (codes "/account/confirm") admin (codes "/x") [] 5 short_grace

no_sudo : is_sudo_active admin 15 5 ≡ false
unfolding is_sudo_active
no_sudo = refl

require_sudo-throws_run :
    require_sudo plain (codes "/account/confirm") (some throws) admin (codes "/x") [] 5
    ≡ confirm (return_to plain (codes "/account/confirm") (codes "/x") [])
require_sudo-throws_run =
    require_sudo-throws plain (codes "/account/confirm") admin (codes "/x") [] 5 no_sudo
