-- ===== src/RuntimeSettings.antt =====
-- The settings in the database: packages/authkit-server/src/host/runtime_settings.ts, a cache with a
-- lifetime over the table `auth_settings`, and the locked keys of config_locks.ts.
pub mod Reads
pub mod Staleness
pub mod Keys
pub mod Frames
pub mod Coherence
pub mod Locked
mod Tests
use adonis_authkit.Prelude.{
  ℕ, ◌+◌, Bool, true, false, not, ◌&&◌, Option, none, some, List, [], ◌∷◌, ◌++◌, map, Text, same,
  first, keep, if◌then◌else◌, ltb,
}
use adonis_authkit.Prelude.Words.{has}
use adonis_authkit.Db.{Table}

-- A row of `auth_settings`; its value is JSON.
pub record SettingRecord : Type 0 where
  pub key : Text
  pub organization_id : Option Text
  pub value : Text
  pub updated_by : Option Text

-- JSON of values other than null: `parse` gives none for null and where it throws.
pub record Json (V : Type 0) : Type 0 where
  pub print : V → Text
  pub parse : Text → Option V

-- Which queries of a call answer: the others throw.
pub record Answers : Type 0 where
  pub probe : Bool
  pub select : Bool
  pub delete : Bool
  pub insert : Bool

abbrev pub all_answer : Answers
all_answer = record { probe = true; select = true; delete = true; insert = true }

pub record CacheEntry (V : Type 0) : Type 0 where
  pub value : Option V
  pub expires_at : ℕ

-- `orgId ? … : …`: an empty id is none.
abbrev pub scope : Option Text → Option Text
scope none = none
scope (some []) = none
scope (some (c ∷ s)) = some (c ∷ s)

abbrev pub scoped_key : Text → Option Text → Text
scoped_key key none = key
scoped_key key (some org) = key ++ 0 ∷ org

unfoldable pub cache_key : Text → Option Text → Text
cache_key key org = scoped_key key (scope org)

-- `organization_id = …`, or `IS NULL`.
abbrev pub in_org : Option Text → Option Text → Bool
in_org none none = true
in_org none (some o) = false
in_org (some o) none = false
in_org (some o) (some p) = same o p

abbrev pub in_scope : Text → Option Text → SettingRecord → Bool
in_scope key org row = same row.key key && in_org (scope org) row.organization_id

abbrev pub is_setting_locked : List Text → Text → Bool
is_setting_locked locked key = has key locked

pub data Write : Type 0 where
  setting_locked done : Write

module _ (db : Table SettingRecord) {V : Type 0} (json : Json V) (locked : List Text)
    (ttl_ms : ℕ) where
  -- `table_present` is none until the table is probed.
  pub record RuntimeSettings : Type 0 where
    pub table : db.State
    pub cache : List (Text × CacheEntry V)
    pub table_present : Option Bool

  abbrev pub parsed : Text → Option V
  parsed [] = none
  parsed (c ∷ s) = json.parse (c ∷ s)

  abbrev pub has_table : Answers → RuntimeSettings → Bool × RuntimeSettings
  has_table answers s = elim s.table_present [
    | some present ↦ (present, s)
    | none ↦ (answers.probe, record s { table_present = some answers.probe })
  ]

  abbrev pub value_of : Option SettingRecord → Option V
  value_of none = none
  value_of (some row) = parsed row.value

  -- What the table holds.
  abbrev pub stored_value : Text → Option Text → RuntimeSettings → Option V
  stored_value key org s = value_of (first (in_scope key org) (db.rows s.table))

  abbrev pub cached : Text → RuntimeSettings → Option (Text × CacheEntry V)
  cached ck s = first (λ e. same e.0 ck) s.cache

  -- `Map.delete`
  abbrev pub without_key : Text → List (Text × CacheEntry V) → List (Text × CacheEntry V)
  without_key ck cache = keep (λ e. not (same e.0 ck)) cache

  unfoldable pub put_cache : Text → Option V → ℕ → RuntimeSettings → RuntimeSettings
  put_cache ck value now s = record s {
    cache = (ck, record { value = value; expires_at = now + ttl_ms }) ∷ without_key ck s.cache;
  }

  unfoldable pub read_table :
      Text → Option Text → Answers → RuntimeSettings → Option V × RuntimeSettings
  read_table key org answers s =
      let (present, s') = has_table answers s in
      ((if present && answers.select then stored_value key org s' else none), s')

  abbrev pub read_through :
      Text → Option Text → Answers → ℕ → RuntimeSettings → Option V × RuntimeSettings
  read_through key org answers now s =
      let (value, s') = read_table key org answers s in
      (value, put_cache (cache_key key org) value now s')

  unfoldable pub get_setting :
      Text → Option Text → Answers → ℕ → RuntimeSettings → Option V × RuntimeSettings
  unfolding cache_key read_table put_cache
  get_setting key org answers now s =
      if is_setting_locked locked key then (none, s) else elim (cached (cache_key key org) s) [
        | none ↦ read_through key org answers now s
        | some (_, entry) ↦
            if ltb now entry.expires_at
            then (entry.value, s)
            else read_through key org answers now s
      ]

  -- The setting of the organisation, else the global one.
  unfoldable pub get_effective :
      Text → Option Text → Answers → ℕ → RuntimeSettings → Option V × RuntimeSettings
  unfolding get_setting
  get_effective key org answers now s = elim (scope org) [
    | none ↦ get_setting key none answers now s
    | some o ↦
        let (own, s') = get_setting key org answers now s in
        elim own [ some v ↦ (some v, s') | none ↦ get_setting key none answers now s' ]
  ]

  -- With a key, that entry; without one, all.
  abbrev pub invalidate : Option (Text × Option Text) → RuntimeSettings → RuntimeSettings
  invalidate none s = record s { cache = [] }
  invalidate (some (key, org)) s = record s { cache = without_key (cache_key key org) s.cache }

  abbrev pub new_record : Text → Option Text → V → Option Text → SettingRecord
  new_record key org value by = record {
    key = key;
    organization_id = org;
    value = json.print value;
    updated_by = by;
  }

  abbrev pub inserted : SettingRecord → Bool → db.State → db.State
  inserted row false table = table
  inserted row true table = elim (db.insert row table) [ none ↦ table | some table' ↦ table' ]

  -- Delete and insert, of which each may throw. A throw ends the writes.
  unfoldable pub write_table : Text → Option Text → V → Option Text → Answers → db.State → db.State
  write_table key org value by answers table =
      if answers.delete
      then inserted (new_record key org value by) answers.insert
          (db.delete (in_scope key org) table)
      else table

  unfoldable pub set_setting :
      Text → V → Option Text → Option Text → Answers → RuntimeSettings → Write × RuntimeSettings
  unfolding write_table cache_key
  set_setting key value by org answers s =
      if is_setting_locked locked key
      then (setting_locked, s)
      else (let (present, s') = has_table answers s in
          if present
          then (
            done,
            invalidate (some (key, org))
                (record s' { table = write_table key org value by answers s'.table }),
          )
          else (done, s'))

  unfoldable pub delete_setting :
      Text → Option Text → Answers → RuntimeSettings → Write × RuntimeSettings
  unfolding cache_key
  delete_setting key org answers s =
      if is_setting_locked locked key
      then (setting_locked, s)
      else (let (present, s') = has_table answers s in
          if present
          then (
            done,
            invalidate (some (key, org)) (record s' {
              table = if answers.delete then db.delete (in_scope key org) s'.table else s'.table;
            }),
          )
          else (done, s'))

  abbrev passes : Option (Option Text) → SettingRecord → Bool
  passes none row = true
  passes (some org) row = in_org (scope org) row.organization_id

  -- Without an argument all rows are listed.
  unfoldable pub list_settings :
      Option (Option Text)
      → Answers
      → RuntimeSettings
      → List (SettingRecord × Option V) × RuntimeSettings
  list_settings org answers s =
      let (present, s') = has_table answers s in
      (
        (if present && answers.select
            then map (λ row. (row, parsed row.value)) (keep (passes org) (db.rows s'.table))
            else []),
        s',
      )
