-- ===== src/RuntimeSettings/Tests.antt =====
-- The theorems on the settings at a concrete table.
use adonis_authkit.Prelude.{
  ℕ, ◌≡◌, refl, true, false, Option, none, some, List, [], ◌∷◌, Text, codes, same, Lacks, arith,
}
use adonis_authkit.Db.{Table}
use adonis_authkit.Db.Memory.{memory}
use adonis_authkit.RuntimeSettings.{
  SettingRecord, Json, Answers, all_answer, RuntimeSettings, has_table, cache_key, read_table,
  put_cache, get_setting, get_effective, write_table, set_setting, delete_setting, stored_value,
  is_setting_locked,
}
use adonis_authkit.RuntimeSettings.Locked
use adonis_authkit.RuntimeSettings.Locked.{Act, write, erase, forget, stored_row, locked-untouched}
use adonis_authkit.RuntimeSettings.Staleness.{Reach, get_setting-fresh}
use adonis_authkit.RuntimeSettings.Coherence.{Run, get_setting-coherent}

abbrev db : Table SettingRecord
db = memory (λ a b. false)

abbrev json : Json Text
json = record { print = λ v. b'"' ∷ v; parse = λ t. parse t }
  where
    parse : Text → Option Text
    parse [] = none
    parse (c ∷ v) = some v

abbrev locked : List Text
locked = codes "lockout" ∷ []

abbrev ttl : ℕ
ttl = 15000

run : Unit {0}
unfolding same cache_key read_table put_cache get_setting get_effective write_table set_setting
    delete_setting
run = tt

abbrev World : Type 0
World = RuntimeSettings db json locked ttl

abbrev fresh : List SettingRecord → World
fresh table = record { table = table; cache = []; table_present = none }

abbrev saved : Text → Option Text → SettingRecord
saved value org = record {
  key = codes "mfa";
  organization_id = org;
  value = b'"' ∷ value;
  updated_by = none;
}

abbrev start : World
start = fresh (saved (codes "global") none ∷ saved (codes "own") (some (codes "o1")) ∷ [])

effective :
    ((get_effective db json locked ttl (codes "mfa") (some (codes "o1")) all_answer 5 start).0
      ≡ some (codes "own"))
    × ((get_effective db json locked ttl (codes "mfa") (some (codes "o2")) all_answer 5 start).0
        ≡ some (codes "global"))
unfolding run
effective = (refl, refl)

lockout-locked : is_setting_locked locked (codes "lockout") ≡ true
unfolding run
lockout-locked = refl

mfa-unlocked : is_setting_locked locked (codes "mfa") ≡ false
unfolding run
mfa-unlocked = refl

-- Attempts on a setting of the config, between uses of another.
abbrev acts : List (Act Text)
acts =
    write (codes "lockout") (codes "off") none none all_answer
    ∷ write (codes "mfa") (codes "v") none none all_answer
    ∷ erase (codes "lockout") none all_answer
    ∷ forget (some (codes "mfa", none))
    ∷ []

lockout-Lacks : Lacks 0 (codes "lockout")
lockout-Lacks =
    ((λ e. cc), ((λ e. cc), ((λ e. cc), ((λ e. cc), ((λ e. cc), ((λ e. cc), ((λ e. cc), tt)))))))

mfa-Lacks : Lacks 0 (codes "mfa")
mfa-Lacks = ((λ e. cc), ((λ e. cc), ((λ e. cc), tt)))

locked-untouched_example :
    let t = Locked.run db json locked ttl acts start in
    (stored_row db json locked ttl (codes "lockout") none t.table
      ≡ stored_row db json locked ttl (codes "lockout") none start.table)
    × ((get_setting db json locked ttl (codes "lockout") none all_answer 5 t).0 ≡ none)
locked-untouched_example =
    locked-untouched db json locked ttl acts (codes "lockout") none all_answer 5 start
      (lockout-Lacks, (mfa-Lacks, (lockout-Lacks, (tt, tt)))) lockout-Lacks lockout-locked

-- A value that was read is given out for a while after the table has changed elsewhere.
abbrev read_once : World
read_once = (get_setting db json locked ttl (codes "mfa") none all_answer 0 start).1

abbrev changed : World
changed = record read_once { table = [] }

stale :
    ((get_setting db json locked ttl (codes "mfa") none all_answer 14999 changed).0
      ≡ some (codes "global"))
    × ((get_setting db json locked ttl (codes "mfa") none all_answer 15000 changed).0 ≡ none)
unfolding run
stale = (refl, refl)

changed-Reach : Reach db json locked ttl 0 changed
changed-Reach =
    Reach.elsewhere (Reach.read (Reach.boot start.table) (codes "mfa") none all_answer) []

found : (has_table db json locked ttl all_answer changed).0 ≡ true
unfolding run
found = refl

get_setting-fresh_example :
    (get_setting db json locked ttl (codes "mfa") none all_answer 15000 changed).0
    ≡ stored_value db json locked ttl (codes "mfa") none changed
get_setting-fresh_example =
    get_setting-fresh db json locked ttl 15000 (codes "mfa") none all_answer changed-Reach
      (omega arith) mfa-unlocked found refl

abbrev rewritten : World
rewritten =
    (set_setting db json locked ttl (codes "mfa") (codes "new") none none all_answer read_once).1

rewritten-Run : Run db json locked ttl rewritten
rewritten-Run =
    Run.write (Run.read (Run.boot start.table) (codes "mfa") none 0 mfa-Lacks) (codes "mfa")
      (codes "new") none none mfa-Lacks

get_setting-coherent_example :
    (get_setting db json locked ttl (codes "mfa") none all_answer 1 rewritten).0
    ≡ stored_value db json locked ttl (codes "mfa") none rewritten
get_setting-coherent_example =
    get_setting-coherent db json locked ttl (codes "mfa") none 1 rewritten-Run mfa-Lacks
      mfa-unlocked

rewritten-new :
    (get_setting db json locked ttl (codes "mfa") none all_answer 1 rewritten).0
    ≡ some (codes "new")
unfolding run
rewritten-new = refl

-- An insertion that throws after the deletion leaves no value.
write-lost :
    let half : Answers = record { probe = true; select = true; delete = true; insert = false } in
    (get_setting db json locked ttl
      (codes "mfa")
      none
      all_answer
      1
      (set_setting db json locked ttl (codes "mfa") (codes "new") none none half start).1).0
    ≡ none
unfolding run
write-lost = refl
