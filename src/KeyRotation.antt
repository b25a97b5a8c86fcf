-- ===== src/KeyRotation.antt =====
-- The scheduled rotation of the signing key: packages/authkit-server/src/provider/
-- key_rotation_scheduler.ts, under the lock of single_flight_lock.ts. Several instances tick at the
-- same time: a tick is taken apart into its awaits, and any order of them is a run.
pub mod Spacing
mod Tests
use adonis_authkit.Prelude.{
  ℕ, ◌+◌, ◌-◌, ◌*◌, ◌/◌, ◌==◌, ◌≡◌, Bool, true, false, Option, none, some, List, [], ◌∷◌,
  if◌then◌else◌, leb,
}

-- Where an instance is in its tick: outside, before the lock, in the lock, or past the second check.
pub data Phase : Type 0 where
  idle due holding rotating : Phase

-- `created` is when the current key was made, and `log` the times of the rotations, the last first.
-- Times are in milliseconds.
pub record Cluster : Type 0 where
  pub phases : ℕ → Phase
  pub lock : Option ℕ
  pub created : ℕ
  pub log : List ℕ

abbrev pub enter : ℕ → Phase → (ℕ → Phase) → ℕ → Phase
enter i p phases j = if j == i then p else phases j

-- The `iat` of a key that is made at a time, in whole seconds.
abbrev pub iat_of : ℕ → ℕ
iat_of created = created / 1000

-- Whole days since then; none where the key is newer than the time.
abbrev pub signing_key_age_days : ℕ → ℕ → ℕ
signing_key_age_days created now = (now - iat_of created * 1000) / 86400000

-- The age in days has reached the limit.
abbrev pub is_old : ℕ → ℕ → ℕ → Bool
is_old max_age_days created now = leb max_age_days (signing_key_age_days created now)

abbrev pub moved : ℕ → Phase → Cluster → Cluster
moved i p s = record s { phases = enter i p s.phases }

-- The lock is released with the move.
abbrev pub released : ℕ → Cluster → Cluster
released i s = record (moved i idle s) { lock = none }

abbrev pub rotated_by : ℕ → ℕ → Cluster → Cluster
rotated_by i now s = record (released i s) { created = now; log = now ∷ s.log }

-- The steps of the ticks, at a time, where there is a key. The limit is the same for all, while the
-- policy may be switched on and off. The lock is held by one instance, and not past its lifetime.
pub data Step (max_age_days now : ℕ) : Cluster → Cluster → Type 0 where
  begin :
      (s : Cluster) (i : ℕ) (enabled : Bool)
      → enabled ≡ true
      → s.phases i ≡ idle
      → is_old max_age_days s.created now ≡ true
      → Step max_age_days now s (moved i due s)
  acquire :
      (s : Cluster) (i : ℕ)
      → s.phases i ≡ due
      → s.lock ≡ none
      → Step max_age_days now s (record (moved i holding s) { lock = some i })
  busy :
      (s : Cluster) (i j : ℕ)
      → s.phases i ≡ due
      → s.lock ≡ some j
      → Step max_age_days now s (moved i idle s)
  still_old :
      (s : Cluster) (i : ℕ)
      → s.phases i ≡ holding
      → is_old max_age_days s.created now ≡ true
      → Step max_age_days now s (moved i rotating s)
  renewed :
      (s : Cluster) (i : ℕ)
      → s.phases i ≡ holding
      → is_old max_age_days s.created now ≡ false
      → Step max_age_days now s (released i s)
  rotate_keys :
      (s : Cluster) (i : ℕ) → s.phases i ≡ rotating → Step max_age_days now s (rotated_by i now s)
  failed : (s : Cluster) (i : ℕ) → s.phases i ≡ rotating → Step max_age_days now s (released i s)

-- The instances start idle, and time passes between the steps.
pub data Reach (max_age_days created : ℕ) : ℕ → Cluster → Type 0 where
  start :
      Reach max_age_days created created
        (record { phases = λ i. idle; lock = none; created = created; log = [] })
  wait :
      {now : ℕ} {s : Cluster}
      → Reach max_age_days created now s
      → (n : ℕ) → Reach max_age_days created (now + n) s
  step :
      {now : ℕ} {s t : Cluster}
      → Reach max_age_days created now s
      → Step max_age_days now s t
      → Reach max_age_days created now t
