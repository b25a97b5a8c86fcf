-- ===== src/RuntimeSettings/Frames.antt =====
-- runtime_settings.ts: what a write leaves as it was, in the table and in the cache.
use adonis_authkit.Prelude.{
  ℕ, ◌≡◌, ◌⊎◌, refl, sym, ap, ◌∙◌, Bool, true, false, Option, none, some, List, Text, same,
  same_sound, first, Option-cases, Bool-cases, inl, inr,
}
use adonis_authkit.Db.{Table}
use adonis_authkit.Db.Finding.{first-keep-other, first-append-other}
use adonis_authkit.RuntimeSettings.{
  SettingRecord, Json, all_answer, CacheEntry, cache_key, in_scope, is_setting_locked, done,
  has_table, cached, without_key, put_cache, set_setting, write_table, new_record, inserted,
}
use adonis_authkit.RuntimeSettings.Reads.{Settings}
use adonis_authkit.RuntimeSettings.Keys.{record_outside, scopes_apart}

abbrev entry_value : {V : Type 0} → Option V → Option (Text × CacheEntry V) → Option V
entry_value fallback none = fallback
entry_value fallback (some e) = e.1.value

module _ (db : Table SettingRecord) {V : Type 0} (json : Json V) (locked : List Text)
    (ttl_ms : ℕ) where
  abbrev World : Type 0
  World = Settings db json locked ttl_ms

  abbrev pub is_found : Option Bool → Bool
  is_found none = true
  is_found (some present) = present

  pub has_table-found :
      (s : World)
      → is_found s.table_present ≡ true
      → has_table db json locked ttl_ms all_answer s
        ≡ (true, record s { table_present = some true })
  has_table-found s = go s.table s.cache s.table_present
    where
      go :
          (table : db.State) (cache : List (Text × CacheEntry V)) (known : Option Bool)
          → let s' : World = record { table = table; cache = cache; table_present = known } in
            is_found known ≡ true
            → has_table db json locked ttl_ms all_answer s'
              ≡ (true, record s' { table_present = some true })
      go table cache none h = refl
      go table cache (some p) h = rw (h) refl

  pub cached-put :
      (ck other : Text) (value : Option V) (now : ℕ) (s : World) {e : Text × CacheEntry V}
      → cached db json locked ttl_ms other (put_cache db json locked ttl_ms ck value now s) ≡ some e
      → ((ck ≡ other) × (value ≡ e.1.value)) ⊎ (cached db json locked ttl_ms other s ≡ some e)
  unfolding put_cache
  cached-put ck other value now s {e} hit = elim (Bool-cases (same ck other)) [
    | inl own ↦ inl (same_sound ck other own, ap (entry_value value) (rw (put_cache, own) at hit))
    | inr apart ↦ inr (
        sym (
          first-keep-other (λ x. same x.0 ck) (λ x. same x.0 other)
            (λ x h. ap (λ t. same t other) (same_sound x.0 ck h) ∙ apart) s.cache)
        ∙ (rw (put_cache, apart) at hit))
  ]

  pub deleted :
      (key : Text) (org : Option Text) (s : World) (other : Text) (own : Option Text)
      → same (cache_key key org) (cache_key other own) ≡ false
      → first (in_scope other own) (db.rows (db.delete (in_scope key org) s.table))
        ≡ first (in_scope other own) (db.rows s.table)
  deleted key org s other own apart = rw (db.rows_delete) (
      first-keep-other (in_scope key org) (in_scope other own)
        (scopes_apart key other org own apart) (db.rows s.table))

  -- An insertion is seen in its scope only.
  pub added :
      (key : Text) (org : Option Text) (value : V) (by : Option Text) (table : db.State)
      (other : Text) (own : Option Text)
      → same (cache_key key org) (cache_key other own) ≡ false
      → first (in_scope other own) (
          db.rows (
            inserted db json locked ttl_ms
              (new_record db json locked ttl_ms key org value by)
              true
              table))
        ≡ first (in_scope other own) (db.rows table)
  added key org value by table other own apart =
      let row = new_record db json locked ttl_ms key org value by in
      elim (Option-cases (db.insert row table)) [
        | inl threw ↦ rw (inserted, threw) refl
        | inr (t, taken) ↦
            rw (inserted, taken, db.rows_insert row table taken)
              (first-append-other (in_scope other own) (db.rows table) row
                (record_outside key other org own apart))
      ]

  pub written :
      (key : Text) (org : Option Text) (value : V) (by : Option Text) (s : World) (other : Text)
      (own : Option Text)
      → same (cache_key key org) (cache_key other own) ≡ false
      → first
          (in_scope other own)
          (db.rows (write_table db json locked ttl_ms key org value by all_answer s.table))
        ≡ first (in_scope other own) (db.rows s.table)
  unfolding write_table
  written key org value by s other own apart =
      added key org value by (db.delete (in_scope key org) s.table) other own apart
      ∙ deleted key org s other own apart

  pub set_setting-found :
      (key : Text) (value : V) (by org : Option Text) (s : World)
      → is_setting_locked locked key ≡ false
      → is_found s.table_present ≡ true
      → set_setting db json locked ttl_ms key value by org all_answer s ≡ (
        done,
        record {
          table = write_table db json locked ttl_ms key org value by all_answer s.table;
          cache = without_key db json locked ttl_ms (cache_key key org) s.cache;
          table_present = some true;
        },
      )
  unfolding set_setting
  set_setting-found key value by org s off = go s.table s.cache s.table_present
    where
      go :
          (table : db.State) (cache : List (Text × CacheEntry V)) (known : Option Bool)
          → let s' : World = record { table = table; cache = cache; table_present = known } in
            is_found known ≡ true
            → set_setting db json locked ttl_ms key value by org all_answer s' ≡ (
              done,
              record {
                table = write_table db json locked ttl_ms key org value by all_answer table;
                cache = without_key db json locked ttl_ms (cache_key key org) cache;
                table_present = some true;
              },
            )
      go table cache none h = rw (set_setting, off) refl
      go table cache (some p) h = rw (set_setting, off, h) refl
