-- ===== src/AccountLockout.antt =====
-- Progressive lockout of an account: packages/authkit-server/src/host/account_lockout.ts.
pub mod Progress
pub mod Tests
use adonis_authkit.Prelude.{
  ℕ, ◌+◌, ◌-◌, ◌*◌, ◌^◌, ◌≡◌, refl, ◌⊎◌, inl, inr, ◌||◌, Bool, true, false, not, Option, none, some,
  List, [], ◌∷◌, if◌then◌else◌, ltb, leb, str_eq, String,
}
use adonis_authkit.Settings.{ResolvedLockout}
use adonis_authkit.Audit.{AuditEvent, account_locked}
use adonis_authkit.Limiter.{Limiter, StoreOptions}

-- The keys `authkit_lockout_fail:…`, `authkit_lockout:…` and `authkit_lockout_count:…`.
pub data LockoutKey : Type 0 where
  fail_key lock_key count_key : String → LockoutKey

abbrev pub at_least_one : ℕ → ℕ
at_least_one n = if ltb 1 n then n else 1

abbrev pub at_most : ℕ → ℕ → ℕ
at_most n m = if ltb n m then n else m

-- base * 2^(n - 1), up to the maximum.
unfoldable pub compute_lockout_sec : ℕ → ResolvedLockout → ℕ
compute_lockout_sec lock_count cfg =
    at_most (cfg.base_lockout_sec * 2 ^ (at_least_one lock_count - 1)) cfg.max_lockout_sec

pub data LockState : Type 0 where
  unlocked : LockState
  locked_for : ℕ → LockState

pub LockState-cases : (x : LockState) → (x ≡ unlocked) ⊎ ((n : ℕ) × (x ≡ locked_for n))
LockState-cases unlocked = inl refl
LockState-cases (locked_for n) = inr (n, refl)

abbrev pub fail_store : ResolvedLockout → StoreOptions
fail_store cfg = record { requests = cfg.max_attempts; duration = cfg.window_sec }

abbrev pub count_store : ResolvedLockout → StoreOptions
count_store cfg = record { requests = 1000000; duration = cfg.max_lockout_sec * 4 }

abbrev pub lock_store : ResolvedLockout → StoreOptions
lock_store cfg = record { requests = 1; duration = cfg.max_lockout_sec }

-- `l` is the host's limiter and `loaded` whether there is one; `normalize` trims and lowers an
-- address.
module _ (l : Limiter LockoutKey) (loaded : Bool) (normalize : String → String) where
  pub record LockoutWorld : Type 0 where
    pub limiter : l.State
    pub audit : List AuditEvent

  -- The guards before each method: an empty address, a lockout that is off, no limiter.
  abbrev pub idle : ResolvedLockout → String → Bool
  idle cfg email = if str_eq (normalize email) "" then true else not cfg.enabled || not loaded

  unfoldable pub is_locked : ResolvedLockout → String → LockoutWorld → LockState
  is_locked cfg email w =
      if idle cfg email
      then unlocked
      else elim (l.is_blocked (lock_store cfg) (lock_key (normalize email)) w.limiter) [
        | some true ↦
            elim (l.available_in (lock_store cfg) (lock_key (normalize email)) w.limiter) [
              | some seconds ↦ locked_for seconds
              | none ↦ unlocked
            ]
        | some false ↦ unlocked
        | none ↦ unlocked
      ]

  abbrev pub with_limiter : l.State → LockoutWorld → LockoutWorld
  with_limiter t w = record w { limiter = t }

  -- `audit` is the context with the address of the client, if the caller passes one.
  abbrev pub audited : Option (Option String) → String → ℕ → ℕ → LockoutWorld → LockoutWorld
  audited none key lock_count seconds w = w
  audited (some ip) key lock_count seconds w = record w {
    audit = account_locked key ip lock_count seconds ∷ w.audit;
  }

  -- A throw ends the method and leaves what was written.
  unfoldable pub lock_account :
      ResolvedLockout → String → Option (Option String) → LockoutWorld → LockoutWorld
  lock_account cfg key audit w = elim (l.increment (count_store cfg) (count_key key) w.limiter) [
    | none ↦ w
    | some (lock_count, t) ↦
        let seconds = compute_lockout_sec lock_count cfg in
        elim (l.block (lock_store cfg) (lock_key key) seconds t) [
          | none ↦ with_limiter t w
          | some u ↦ elim (l.delete (fail_store cfg) (fail_key key) u) [
            | none ↦ with_limiter u w
            | some v ↦ audited audit key lock_count seconds (with_limiter v w)
          ]
        ]
  ]

  unfoldable pub count_failure :
      ResolvedLockout → String → Option (Option String) → LockoutWorld → LockoutWorld
  unfolding lock_account
  count_failure cfg key audit w = elim (l.increment (fail_store cfg) (fail_key key) w.limiter) [
    | none ↦ w
    | some (consumed, t) ↦
        if ltb consumed cfg.max_attempts
        then with_limiter t w
        else lock_account cfg key audit (with_limiter t w)
  ]

  unfoldable pub record_failure :
      ResolvedLockout → String → Option (Option String) → LockoutWorld → LockoutWorld
  unfolding count_failure
  record_failure cfg email audit w =
      if idle cfg email
      then w
      else elim (l.is_blocked (lock_store cfg) (lock_key (normalize email)) w.limiter) [
        | some false ↦ count_failure cfg (normalize email) audit w
        | some true ↦ w
        | none ↦ w
      ]

  unfoldable pub clear_failures : ResolvedLockout → String → LockoutWorld → LockoutWorld
  clear_failures cfg email w =
      if idle cfg email
      then w
      else elim (l.delete (fail_store cfg) (fail_key (normalize email)) w.limiter) [
        | none ↦ w
        | some t ↦ elim (l.delete (lock_store cfg) (lock_key (normalize email)) t) [
          | none ↦ with_limiter t w
          | some u ↦ with_limiter u w
        ]
      ]
