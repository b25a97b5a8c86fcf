-- ===== src/RuntimeSettings/Reads.antt =====
-- runtime_settings.ts: what one read or write does.
use adonis_authkit.Prelude.{
  ℕ, ◌≡◌, refl, ap, ◌∙◌, Bool, true, false, Option, none, some, List, [], ◌∷◌, Text, same,
  same_refl, first, ltb, Option-cases, inl, inr,
}
use adonis_authkit.Db.{Table}
use adonis_authkit.Db.Finding.{first-keep-not, first-append-here}
use adonis_authkit.RuntimeSettings.{
  SettingRecord, Json, Answers, all_answer, CacheEntry, scope, cache_key, in_scope,
  is_setting_locked, done, RuntimeSettings, has_table, stored_value, cached, without_key,
  read_table, read_through, get_setting, write_table, set_setting, new_record, parsed, value_of,
}

module _ (db : Table SettingRecord) {V : Type 0} (json : Json V) (locked : List Text)
    (ttl_ms : ℕ) where
  abbrev pub Settings : Type 0
  Settings = RuntimeSettings db json locked ttl_ms

  pub has_table-rest :
      (answers : Answers) (s : Settings)
      → ((has_table db json locked ttl_ms answers s).1.table ≡ s.table)
        × ((has_table db json locked ttl_ms answers s).1.cache ≡ s.cache)
  has_table-rest answers s = elim (Option-cases s.table_present) [
    | inl unknown ↦ (rw (unknown) refl, rw (unknown) refl)
    | inr (p, known) ↦ (rw (known) refl, rw (known) refl)
  ]

  abbrev pub expiry_passes : Option (Text × CacheEntry V) → ℕ → Bool
  expiry_passes none now = false
  expiry_passes (some (_, entry)) now = ltb now entry.expires_at

  -- The cache answers at this time.
  abbrev pub is_alive : Text → ℕ → Settings → Bool
  is_alive ck now s = expiry_passes (cached db json locked ttl_ms ck s) now

  -- What a read gives, by the cache or by the table.
  pub get_setting-miss :
      (key : Text) (org : Option Text) (answers : Answers) (now : ℕ) (s : Settings)
      → is_setting_locked locked key ≡ false
      → is_alive (cache_key key org) now s ≡ false
      → get_setting db json locked ttl_ms key org answers now s
        ≡ read_through db json locked ttl_ms key org answers now s
  unfolding get_setting
  get_setting-miss key org answers now s unlocked dead =
      elim (Option-cases (cached db json locked ttl_ms (cache_key key org) s)) [
        | inl miss ↦ rw (get_setting, unlocked, miss) refl
        | inr (e, hit) ↦
            let late : ltb now e.1.expires_at ≡ false = rw (is_alive, hit) at dead in
            rw (get_setting, unlocked, hit, late) refl
      ]

  pub get_setting-hit :
      (key : Text) (org : Option Text) (answers : Answers) (now : ℕ) (s : Settings)
      → is_setting_locked locked key ≡ false
      → is_alive (cache_key key org) now s ≡ true
      → (e : Text × CacheEntry V) × (cached db json locked ttl_ms (cache_key key org) s ≡ some e)
        × (get_setting db json locked ttl_ms key org answers now s ≡ (e.1.value, s))
  unfolding get_setting
  get_setting-hit key org answers now s unlocked alive =
      elim (Option-cases (cached db json locked ttl_ms (cache_key key org) s)) [
        | inl miss ↦ absurd (cc (rw (is_alive, miss) at alive))
        | inr (e, hit) ↦
            let early : ltb now e.1.expires_at ≡ true = rw (is_alive, hit) at alive in
            (e, hit, rw (get_setting, unlocked, hit, early) refl)
      ]

  pub read_table-stored :
      (key : Text) (org : Option Text) (answers : Answers) (s : Settings)
      → (has_table db json locked ttl_ms answers s).0 ≡ true
      → answers.select ≡ true
      → (read_table db json locked ttl_ms key org answers s).0
        ≡ stored_value db json locked ttl_ms key org s
  unfolding read_table
  read_table-stored key org answers s present selects =
      rw (read_table, present, selects)
        (ap (λ t. value_of db json locked ttl_ms (first (in_scope key org) (db.rows t)))
          (has_table-rest answers s).0)

  pub get_setting-stored :
      (key : Text) (org : Option Text) (answers : Answers) (now : ℕ) (s : Settings)
      → is_setting_locked locked key ≡ false
      → is_alive (cache_key key org) now s ≡ false
      → (has_table db json locked ttl_ms answers s).0 ≡ true
      → answers.select ≡ true
      → (get_setting db json locked ttl_ms key org answers now s).0
        ≡ stored_value db json locked ttl_ms key org s
  get_setting-stored key org answers now s unlocked dead present selects =
      ap (λ p. p.0) (get_setting-miss key org answers now s unlocked dead)
      ∙ read_table-stored key org answers s present selects

  -- JSON of this value is read back.
  pub record IsPrinted (value : V) : Type 0 where
    pub text : same (json.print value) [] ≡ false
    pub back : json.parse (json.print value) ≡ some value

  parsed-text :
      (value : V) (t : Text)
      → same t [] ≡ false
      → json.parse t ≡ some value
      → parsed db json locked ttl_ms t ≡ some value
  unfolding same
  parsed-text value [] e back = absurd (cc e)
  parsed-text value (c ∷ t) e back = back

  pub known_after :
      (answers : Answers) (s : Settings)
      → (has_table db json locked ttl_ms answers s).0 ≡ true
      → (has_table db json locked ttl_ms answers s).1.table_present ≡ some true
  known_after answers s = go s.table s.cache s.table_present
    where
      go :
          (table : db.State) (cache : List (Text × CacheEntry V)) (known : Option Bool)
          → let s' : Settings = record { table = table; cache = cache; table_present = known } in
            (has_table db json locked ttl_ms answers s').0 ≡ true
            → (has_table db json locked ttl_ms answers s').1.table_present ≡ some true
      go table cache none present = ap some present
      go table cache (some p) present = ap some present

  -- A row of this scope.
  new_record-in_scope :
      (key : Text) (org : Option Text) (value : V) (by : Option Text)
      → scope org ≡ org
      → in_scope key org (new_record db json locked ttl_ms key org value by) ≡ true
  new_record-in_scope key none value by real = rw (same_refl key) refl
  new_record-in_scope key (some []) value by real = absurd (cc real)
  new_record-in_scope key (some (c ∷ o)) value by real = rw (same_refl key) (same_refl (c ∷ o))

  -- A value that was written, and that the table took, is what the reads of that scope give from
  -- then on: the cache does not hide it.
  pub get_setting-set_setting :
      (key : Text) (org : Option Text) (value : V) (by : Option Text) (now : ℕ) (s : Settings)
      (t : db.State)
      → is_setting_locked locked key ≡ false
      → IsPrinted value
      → scope org ≡ org
      → (has_table db json locked ttl_ms all_answer s).0 ≡ true
      → db.insert
          (new_record db json locked ttl_ms key org value by)
          (db.delete (in_scope key org) s.table)
        ≡ some t
      → let (answer, u) = set_setting db json locked ttl_ms key value by org all_answer s in
        (answer ≡ done)
        × ((get_setting db json locked ttl_ms key org all_answer now u).0 ≡ some value)
  unfolding set_setting write_table
  get_setting-set_setting key org value by now s t unlocked law real present taken =
      let s' = (has_table db json locked ttl_ms all_answer s).1 in
      let u : Settings = record s' {
        table = t;
        cache = without_key db json locked ttl_ms (cache_key key org) s'.cache;
      } in
      let set : set_setting db json locked ttl_ms key value by org all_answer s ≡ (done, u) =
        rw (set_setting, unlocked, present, (has_table-rest all_answer s).0, taken) refl in
      let row = new_record db json locked ttl_ms key org value by in
      let gone : first (in_scope key org) (db.rows (db.delete (in_scope key org) s.table)) ≡ none =
        rw (db.rows_delete) (first-keep-not (in_scope key org) (db.rows s.table)) in
      let found : first (in_scope key org) (db.rows t) ≡ some row =
        rw (db.rows_insert row (db.delete (in_scope key org) s.table) taken) (
          first-append-here (in_scope key org) (db.rows (db.delete (in_scope key org) s.table)) row
            gone (new_record-in_scope key org value by real)) in
      let stored : stored_value db json locked ttl_ms key org u ≡ some value =
        rw (stored_value, found) (parsed-text value (json.print value) law.text law.back) in
      let dead : is_alive (cache_key key org) now u ≡ false =
        rw (is_alive, first-keep-not (λ e. same e.0 (cache_key key org)) s'.cache) refl in
      rw (set) (
        refl,
        get_setting-stored key org all_answer now u unlocked dead
              (rw (has_table, known_after all_answer s present) refl) refl
            ∙ stored,
      )
