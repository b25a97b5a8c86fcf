-- ===== src/Sudo/Gate.antt =====
-- sudo_mode.ts: when the guard lets a request through.
use adonis_authkit.Prelude.{ℕ, ◌≡◌, ◌↔◌, ◌⊎◌, refl, true, false, Option, some, Text, arith}
use adonis_authkit.Settings.{RawSetting, throws}
use adonis_authkit.Sudo.{
  Session, SudoModeSetting, sudo_config, is_sudo_active, allowed, confirm, return_to, require_sudo,
  resolve_effective_sudo_mode,
}

module _ (encode : Text → Text) (confirm_path : Text) (s : Session) (url query : Text)
    (now : ℕ) where
  -- The guard lets a request through exactly when sudo mode is off or sudo is active within the
  -- configured window, whatever the setting, or its absence, is.
  pub require_sudo-allowed_iff :
      (settings : Option (RawSetting SudoModeSetting))
      → (require_sudo encode confirm_path settings s url query now ≡ allowed) ↔ (
          ((sudo_config settings).enabled ≡ false)
          ⊎ (is_sudo_active s (sudo_config settings).grace_minutes now ≡ true))
  unfolding require_sudo
  require_sudo-allowed_iff settings = ((λ e. ground arith), (λ e. ground arith))

  -- A store of settings that fails does not open the guard: a session without sudo in the last
  -- 15 minutes is sent to the confirmation.
  pub require_sudo-throws :
      is_sudo_active s 15 now ≡ false
      → require_sudo encode confirm_path (some throws) s url query now
        ≡ confirm (return_to encode confirm_path url query)
  unfolding require_sudo resolve_effective_sudo_mode
  require_sudo-throws inactive = rw inactive refl
