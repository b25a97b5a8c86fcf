-- ===== src/KeyRotation/Tests.antt =====
-- Two instances that see an old key at once, of which one rotates.
use adonis_authkit.Prelude.{◌+◌, none, some, []}
use adonis_authkit.KeyRotation.{idle, due, holding, rotating, Cluster, moved, rotated_by}

abbrev start : Cluster
start = record { phases = λ i. idle; lock = none; created = 0; log = [] }

abbrev both_due : Cluster
both_due = moved 1 due (moved 0 due start)

abbrev locked : Cluster
locked = record (moved 0 holding both_due) { lock = some 0 }

abbrev rotated : Cluster
rotated = rotated_by 0 (0 + 86400000) (moved 0 rotating locked)

abbrev second : Cluster
second = record (moved 1 holding rotated) { lock = some 1 }
