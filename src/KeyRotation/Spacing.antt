-- ===== src/KeyRotation/Spacing.antt =====
-- key_rotation_scheduler.ts: the times between rotations.
use adonis_authkit.Prelude.{
  ℕ, ◌+◌, ◌-◌, ◌*◌, ◌≤◌, ◌≡◌, Bool, true, false, Option, none, some, List, [], ◌∷◌,
}
use adonis_authkit.KeyRotation.{Phase, holding, rotating, Cluster, is_old}

-- The phases in which an instance has the lock.
abbrev has_lock : Phase → Bool
has_lock holding = true
has_lock rotating = true
has_lock _ = false

abbrev is_rotating : Phase → Bool
is_rotating rotating = true
is_rotating _ = false

-- From one time to another, that many days pass, less the part of a second that `iat` drops.
abbrev pub IsDaysAfter : ℕ → ℕ → ℕ → Type 0
IsDaysAfter days from to = days * (24 * 60 * 60 * 1000) ≤ (to - from) + 999

-- So many days pass between a rotation and the one before it, and before the first one.
abbrev pub IsSpaced : ℕ → ℕ → List ℕ → Type 0
IsSpaced max_age_days created [] = Unit {0}
IsSpaced max_age_days created (t ∷ []) = IsDaysAfter max_age_days created t
IsSpaced max_age_days created (t ∷ u ∷ log) =
    IsDaysAfter max_age_days u t × IsSpaced max_age_days created (u ∷ log)

abbrev last_of : ℕ → List ℕ → ℕ
last_of created [] = created
last_of created (t ∷ log) = t

abbrev value_or : ℕ → Option ℕ → ℕ
value_or fallback none = fallback
value_or fallback (some n) = n

module _ (max_age_days created : ℕ) where
  record IsSafe (now : ℕ) (s : Cluster) : Type 0 where
    locked : (i : ℕ) → has_lock (s.phases i) ≡ true → s.lock ≡ some i
    old : (i : ℕ) → is_rotating (s.phases i) ≡ true → is_old max_age_days s.created now ≡ true
    made : s.created ≡ last_of created s.log
    spaced : IsSpaced max_age_days created s.log
