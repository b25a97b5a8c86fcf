-- ===== src/RuntimeSettings/Locked.antt =====
-- runtime_settings.ts with config_locks.ts: a setting that the config declares, over a run.
use adonis_authkit.Prelude.{
  ℕ, ◌≡◌, refl, sym, ap, ◌∙◌, true, false, Option, none, some, List, [], ◌∷◌, Text, same,
  same_sound, Lacks, first, Bool-cases, inl, inr,
}
use adonis_authkit.Db.{Table}
use adonis_authkit.RuntimeSettings.{
  SettingRecord, Json, Answers, cache_key, in_scope, is_setting_locked, has_table, get_setting,
  read_table, put_cache, set_setting, delete_setting, write_table, invalidate,
}
use adonis_authkit.RuntimeSettings.Reads.{
  Settings, has_table-rest, is_alive, get_setting-hit, get_setting-miss,
}
use adonis_authkit.RuntimeSettings.Keys.{cache_key-injective}
use adonis_authkit.RuntimeSettings.Frames.{deleted, added}

-- The uses of the settings, with the answers of the database at each.
pub data Act (V : Type 0) : Type 0 where
  read : Text → Option Text → Answers → ℕ → Act V
  write : Text → V → Option Text → Option Text → Answers → Act V
  erase : Text → Option Text → Answers → Act V
  forget : Option (Text × Option Text) → Act V

abbrev pub HasKey : {V : Type 0} → Act V → Type 0
HasKey (read key org answers now) = Lacks 0 key
HasKey (write key value by org answers) = Lacks 0 key
HasKey (erase key org answers) = Lacks 0 key
HasKey (forget scope) = Unit

abbrev pub HaveKeys : {V : Type 0} → List (Act V) → Type 0
HaveKeys [] = Unit {0}
HaveKeys (a ∷ acts) = HasKey a × HaveKeys acts

module _ (db : Table SettingRecord) {V : Type 0} (json : Json V) (locked : List Text)
    (ttl_ms : ℕ) where
  abbrev World : Type 0
  World = Settings db json locked ttl_ms

  unfoldable pub perform : Act V → World → World
  perform (read key org answers now) s = (get_setting db json locked ttl_ms key org answers now s).1
  perform (write key value by org answers) s =
      (set_setting db json locked ttl_ms key value by org answers s).1
  perform (erase key org answers) s = (delete_setting db json locked ttl_ms key org answers s).1
  perform (forget scope) s = invalidate db json locked ttl_ms scope s

  pub run : List (Act V) → World → World
  run [] s = s
  run (a ∷ acts) s = run acts (perform a s)

  -- What is stored for a key in a scope.
  abbrev pub stored_row : Text → Option Text → db.State → Option SettingRecord
  stored_row key org table = first (in_scope key org) (db.rows table)

  locks_apart :
      (key other : Text) (org own : Option Text)
      → Lacks 0 key
      → Lacks 0 other
      → is_setting_locked locked key ≡ false
      → is_setting_locked locked other ≡ true
      → same (cache_key key org) (cache_key other own) ≡ false
  locks_apart key other org own h k off on =
      elim (Bool-cases (same (cache_key key org) (cache_key other own))) [
        | inr apart ↦ apart
        | inl both ↦
            let (same_key, _) = cache_key-injective key other org own h k (same_sound _ _ both) in
            absurd (cc (sym off ∙ ap (is_setting_locked locked) same_key ∙ on))
      ]

  written_by :
      (key : Text) (org : Option Text) (value : V) (by : Option Text) (answers : Answers)
      (table : db.State) (other : Text) (own : Option Text) (s : World)
      → same (cache_key key org) (cache_key other own) ≡ false
      → stored_row other own (write_table db json locked ttl_ms key org value by answers table)
        ≡ stored_row other own table
  unfolding write_table
  written_by key org value by answers table other own s apart =
      let rest =
        deleted db json locked ttl_ms key org (record s { table = table }) other own apart in
      elim (Bool-cases answers.delete) [
        | inr threw ↦ rw (write_table, threw) refl
        | inl gone ↦ elim (Bool-cases answers.insert) [
          | inr threw ↦ rw (write_table, gone, threw) rest
          | inl there ↦
              rw (write_table, gone, there)
                (added db json locked ttl_ms key org value by (db.delete (in_scope key org) table)
                    other own apart
                  ∙ rest)
        ]
      ]

  set_setting-frame :
      (key : Text) (value : V) (by org : Option Text) (answers : Answers) (s : World) (other : Text)
      (own : Option Text)
      → Lacks 0 key
      → Lacks 0 other
      → is_setting_locked locked other ≡ true
      → stored_row other own (set_setting db json locked ttl_ms key value by org answers s).1.table
        ≡ stored_row other own s.table
  unfolding set_setting
  set_setting-frame key value by org answers s other own h k on =
      let (same_table, _) = has_table-rest db json locked ttl_ms answers s in
      elim (Bool-cases (is_setting_locked locked key)) [
        | inl shut ↦ rw (set_setting, shut) refl
        | inr off ↦ elim (Bool-cases (has_table db json locked ttl_ms answers s).0) [
          | inr absent ↦ rw (set_setting, off, absent) (ap (stored_row other own) same_table)
          | inl present ↦
              rw (set_setting, off, present)
                (written_by key org value by answers _ other own s
                    (locks_apart key other org own h k off on)
                  ∙ ap (stored_row other own) same_table)
        ]
      ]

  delete_setting-frame :
      (key : Text) (org : Option Text) (answers : Answers) (s : World) (other : Text)
      (own : Option Text)
      → Lacks 0 key
      → Lacks 0 other
      → is_setting_locked locked other ≡ true
      → stored_row other own (delete_setting db json locked ttl_ms key org answers s).1.table
        ≡ stored_row other own s.table
  unfolding delete_setting
  delete_setting-frame key org answers s other own h k on =
      let (same_table, _) = has_table-rest db json locked ttl_ms answers s in
      elim (Bool-cases (is_setting_locked locked key)) [
        | inl shut ↦ rw (delete_setting, shut) refl
        | inr off ↦ elim (Bool-cases (has_table db json locked ttl_ms answers s).0) [
          | inr absent ↦ rw (delete_setting, off, absent) (ap (stored_row other own) same_table)
          | inl present ↦ elim (Bool-cases answers.delete) [
            | inr threw ↦
                rw (delete_setting, off, present, threw) (ap (stored_row other own) same_table)
            | inl gone ↦
                rw (delete_setting, off, present, gone)
                  (deleted db json locked ttl_ms key org
                      (has_table db json locked ttl_ms answers s).1 other own
                      (locks_apart key other org own h k off on)
                    ∙ ap (stored_row other own) same_table)
          ]
        ]
      ]

  get_setting-table :
      (key : Text) (org : Option Text) (answers : Answers) (now : ℕ) (s : World)
      → (get_setting db json locked ttl_ms key org answers now s).1.table ≡ s.table
  unfolding get_setting read_table put_cache
  get_setting-table key org answers now s =
      let (same_table, _) = has_table-rest db json locked ttl_ms answers s in
      elim (Bool-cases (is_setting_locked locked key)) [
        | inl shut ↦ rw (get_setting, shut) refl
        | inr off ↦ elim (Bool-cases (is_alive db json locked ttl_ms (cache_key key org) now s)) [
          | inl alive ↦
              let (e, _, hit) =
                get_setting-hit db json locked ttl_ms key org answers now s off alive in
              ap (λ p. p.1.table) hit
          | inr dead ↦
              rw (get_setting-miss db json locked ttl_ms key org answers now s off dead)
                (same_table)
        ]
      ]

  perform-frame :
      (a : Act V) (s : World) (other : Text) (own : Option Text)
      → HasKey a
      → Lacks 0 other
      → is_setting_locked locked other ≡ true
      → stored_row other own (perform a s).table ≡ stored_row other own s.table
  unfolding perform
  perform-frame (read key org answers now) s other own h k on =
      ap (stored_row other own) (get_setting-table key org answers now s)
  perform-frame (write key value by org answers) s other own h k on =
      set_setting-frame key value by org answers s other own h k on
  perform-frame (erase key org answers) s other own h k on =
      delete_setting-frame key org answers s other own h k on
  perform-frame (forget none) s other own h k on = refl
  perform-frame (forget (some scope)) s other own h k on = refl

  run-frame :
      (acts : List (Act V)) (s : World) (other : Text) (own : Option Text)
      → HaveKeys acts
      → Lacks 0 other
      → is_setting_locked locked other ≡ true
      → stored_row other own (run acts s).table ≡ stored_row other own s.table
  unfolding run
  run-frame [] s other own h k on = refl
  run-frame (a ∷ acts) s other own (h, hs) k on =
      run-frame acts (perform a s) other own hs k on ∙ perform-frame a s other own h k on

  -- A setting that the config declares stays as it is: no run of reads, writes, deletions and
  -- invalidations of a process, of this setting or others, with queries that answer or throw,
  -- changes what the table holds for it in any scope, and after any of them it reads as nothing,
  -- whatever is stored or cached. No key holds a zero code unit.
  pub locked-untouched :
      (acts : List (Act V)) (key : Text) (org : Option Text) (answers : Answers) (now : ℕ)
      (s : World)
      → HaveKeys acts
      → Lacks 0 key
      → is_setting_locked locked key ≡ true
      → let t = run acts s in
        (stored_row key org t.table ≡ stored_row key org s.table)
        × ((get_setting db json locked ttl_ms key org answers now t).0 ≡ none)
  unfolding get_setting
  locked-untouched acts key org answers now s h k on =
      (run-frame acts s key org h k on, rw (get_setting, on) refl)
