-- ===== src/RuntimeSettings/Coherence.antt =====
-- runtime_settings.ts: the cache of a process that alone writes the table.
use adonis_authkit.Prelude.{
  ℕ, ◌≡◌, refl, sym, ap, ap₂, subst, ◌∙◌, true, false, ◌&&◌, Option, none, some, List, [], Text,
  same, same_sound, Lacks, first, Bool-cases, inl, inr,
}
use adonis_authkit.Db.{Table}
use adonis_authkit.Db.Finding.{first-keep-not, first-keep-other}
use adonis_authkit.RuntimeSettings.{
  SettingRecord, Json, all_answer, CacheEntry, cache_key, in_org, in_scope, is_setting_locked,
  has_table, stored_value, value_of, cached, without_key, read_table, put_cache, get_setting,
  set_setting, delete_setting, write_table,
}
use adonis_authkit.RuntimeSettings.Reads.{
  Settings, is_alive, get_setting-hit, get_setting-miss, get_setting-stored,
}
use adonis_authkit.RuntimeSettings.Keys.{cache_key-injective}
use adonis_authkit.RuntimeSettings.Frames.{
  is_found, has_table-found, cached-put, deleted, written, set_setting-found,
}

module _ (db : Table SettingRecord) {V : Type 0} (json : Json V) (locked : List Text)
    (ttl_ms : ℕ) where
  abbrev World : Type 0
  World = Settings db json locked ttl_ms

  -- What one process does to its settings, with keys without a zero and a database that answers.
  pub data Run : World → Type 0 where
    boot : (table : db.State) → Run (record { table = table; cache = []; table_present = none })
    read :
        {s : World}
        → Run s
        → (key : Text) (org : Option Text) (now : ℕ) → Lacks 0 key
        → Run (get_setting db json locked ttl_ms key org all_answer now s).1
    write :
        {s : World}
        → Run s
        → (key : Text) (value : V) (by org : Option Text) → Lacks 0 key
        → Run (set_setting db json locked ttl_ms key value by org all_answer s).1
    erase :
        {s : World}
        → Run s
        → (key : Text) (org : Option Text) → Lacks 0 key
        → Run (delete_setting db json locked ttl_ms key org all_answer s).1

  -- The cache holds what the table holds, and the table was found, if it was looked for.
  record IsCoherent (s : World) : Type 0 where
    entries :
        (key : Text) (org : Option Text) (e : Text × CacheEntry V)
        → Lacks 0 key
        → cached db json locked ttl_ms (cache_key key org) s ≡ some e
        → e.1.value ≡ stored_value db json locked ttl_ms key org s
    found : is_found db json locked ttl_ms s.table_present ≡ true

  abbrev probed : World → World
  probed s = (has_table db json locked ttl_ms all_answer s).1

  put-IsCoherent :
      (key : Text) (org : Option Text) (value : Option V) (now : ℕ) (s : World)
      → Lacks 0 key
      → value ≡ stored_value db json locked ttl_ms key org s
      → IsCoherent s
      → IsCoherent (put_cache db json locked ttl_ms (cache_key key org) value now s)
  unfolding put_cache
  put-IsCoherent key org value now s lacks same_ h = record {
    entries = λ other own e lacks' hit.
        elim (cached-put db json locked ttl_ms (cache_key key org) (cache_key other own) value now s
          {e = e} hit) [
            | inl (ck, v) ↦
                let (keys, orgs) = cache_key-injective key other org own lacks lacks' ck in
                sym v
                ∙ same_
                ∙ ap₂
                    (λ k o. value_of db json locked ttl_ms (
                      first (λ row. same row.key k && in_org o row.organization_id)
                        (db.rows s.table)))
                    keys orgs
            | inr old ↦ h.entries other own e lacks' old
          ];
    found = h.found;
  }

  get_setting-IsCoherent :
      (key : Text) (org : Option Text) (now : ℕ) (s : World)
      → Lacks 0 key
      → IsCoherent s
      → IsCoherent (get_setting db json locked ttl_ms key org all_answer now s).1
  unfolding get_setting read_table
  get_setting-IsCoherent key org now s lacks h = elim (Bool-cases (is_setting_locked locked key)) [
    | inl on ↦ rw (get_setting, on) h
    | inr off ↦ elim (Bool-cases (is_alive db json locked ttl_ms (cache_key key org) now s)) [
      | inl alive ↦
          let (e, _, hit) =
            get_setting-hit db json locked ttl_ms key org all_answer now s off alive in
          rw (hit) h
      | inr dead ↦
          rw
            (
              get_setting-miss db json locked ttl_ms key org all_answer now s off dead,
              read_table,
              has_table-found db json locked ttl_ms s h.found,
            )
            (put-IsCoherent key org (stored_value db json locked ttl_ms key org s) now
              (record s { table_present = some true }) lacks refl
              (record { entries = h.entries; found = refl }))
    ]
  ]

  -- A table that holds the same in every other scope, with this scope out of the cache.
  changed-IsCoherent :
      (key : Text) (org : Option Text) (s : World) (table : db.State)
      → ((other : Text) (own : Option Text)
          → same (cache_key key org) (cache_key other own) ≡ false
          → first (in_scope other own) (db.rows table)
            ≡ first (in_scope other own) (db.rows s.table))
      → IsCoherent s
      → IsCoherent (record {
        table = table;
        cache = without_key db json locked ttl_ms (cache_key key org) s.cache;
        table_present = some true;
      })
  changed-IsCoherent key org s table frame h = record {
    entries = λ other own e lacks hit.
        elim (Bool-cases (same (cache_key key org) (cache_key other own))) [
          | inl own_ ↦ absurd (
              cc (
                sym (first-keep-not (λ x. same x.0 (cache_key key org)) s.cache)
                ∙ ap
                    (λ t.
                      first (λ x. same x.0 t)
                        (without_key db json locked ttl_ms (cache_key key org) s.cache))
                    (same_sound (cache_key key org) (cache_key other own) own_)
                ∙ hit))
          | inr apart ↦
              let kept =
                first-keep-other (λ x. same x.0 (cache_key key org))
                  (λ x. same x.0 (cache_key other own))
                  (λ x k.
                    ap (λ t. same t (cache_key other own)) (same_sound x.0 (cache_key key org) k)
                    ∙ apart)
                  s.cache in
              h.entries other own e lacks (sym kept ∙ hit)
              ∙ sym (ap (value_of db json locked ttl_ms) (frame other own apart))
        ];
    found = refl;
  }

  delete_setting-IsCoherent :
      (key : Text) (org : Option Text) (s : World)
      → IsCoherent s
      → IsCoherent (delete_setting db json locked ttl_ms key org all_answer s).1
  unfolding delete_setting
  delete_setting-IsCoherent key org s h = elim (Bool-cases (is_setting_locked locked key)) [
    | inl on ↦ rw (delete_setting, on) h
    | inr off ↦
        rw (delete_setting, off, has_table-found db json locked ttl_ms s h.found)
          (changed-IsCoherent key org s (db.delete (in_scope key org) s.table)
            (deleted db json locked ttl_ms key org s) h)
  ]

  set_setting-IsCoherent :
      (key : Text) (value : V) (by org : Option Text) (s : World)
      → IsCoherent s
      → IsCoherent (set_setting db json locked ttl_ms key value by org all_answer s).1
  unfolding set_setting
  set_setting-IsCoherent key value by org s h = elim (Bool-cases (is_setting_locked locked key)) [
    | inl on ↦ rw (set_setting, on) h
    | inr off ↦
        subst (λ p. IsCoherent p.1)
          (sym (set_setting-found db json locked ttl_ms key value by org s off h.found))
          (changed-IsCoherent key org s
            (write_table db json locked ttl_ms key org value by all_answer s.table)
            (written db json locked ttl_ms key org value by s) h)
  ]

  Run-IsCoherent : {s : World} → Run s → IsCoherent s
  Run-IsCoherent (boot table) = record {
    entries = λ key org e lacks hit. absurd (cc hit);
    found = refl;
  }
  Run-IsCoherent (read {s} r key org now lacks) =
      get_setting-IsCoherent key org now s lacks (Run-IsCoherent r)
  Run-IsCoherent (write {s} r key value by org lacks) =
      set_setting-IsCoherent key value by org s (Run-IsCoherent r)
  Run-IsCoherent (erase {s} r key org lacks) =
      delete_setting-IsCoherent key org s (Run-IsCoherent r)

  -- The settings of a process that alone writes the table are those of the table: from its start,
  -- whatever it has read, written and deleted, a read gives what is stored. All its queries answer,
  -- the table exists, no key holds a zero code unit, and the key that is read is not locked.
  pub get_setting-coherent :
      {s : World} (key : Text) (org : Option Text) (now : ℕ)
      → Run s
      → Lacks 0 key
      → is_setting_locked locked key ≡ false
      → (get_setting db json locked ttl_ms key org all_answer now s).0
        ≡ stored_value db json locked ttl_ms key org s
  get_setting-coherent {s} key org now r lacks off =
      let h = Run-IsCoherent r in
      elim (Bool-cases (is_alive db json locked ttl_ms (cache_key key org) now s)) [
        | inl alive ↦
            let (e, there, hit) =
              get_setting-hit db json locked ttl_ms key org all_answer now s off alive in
            ap (λ p. p.0) hit ∙ h.entries key org e lacks there
        | inr dead ↦
            get_setting-stored db json locked ttl_ms key org all_answer now s off dead
              (ap (λ p. p.0) (has_table-found db json locked ttl_ms s h.found)) refl
      ]
