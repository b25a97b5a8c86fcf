-- ===== src/RuntimeSettings/Staleness.antt =====
-- runtime_settings.ts: how old a value of the cache can be, when the table is changed elsewhere.
use adonis_authkit.Prelude.{
  ℕ, ◌+◌, ◌≤◌, ◌≡◌, refl, Bool, true, false, not, Option, none, some, List, [], ◌∷◌, Text, same,
  first, keep, all, ltb, leb, arith, Option-cases, Bool-cases, inl, inr,
}
use adonis_authkit.Db.{Table}
use adonis_authkit.RuntimeSettings.{
  SettingRecord, Json, Answers, CacheEntry, cache_key, is_setting_locked, has_table, stored_value,
  cached, without_key, read_table, put_cache, get_setting, set_setting, delete_setting, invalidate,
}
use adonis_authkit.RuntimeSettings.Reads.{
  Settings, has_table-rest, is_alive, get_setting-hit, get_setting-miss, get_setting-stored,
}

all-keep {ℓ} :
    {A : Type ℓ} (p q : A → Bool) (xs : List A) → all p xs ≡ true → all p (keep q xs) ≡ true
all-keep p q [] h = refl
all-keep p q (x ∷ xs) h = ground (arith, all-keep p q xs)

all-first {ℓ} :
    {A : Type ℓ} (p q : A → Bool) (xs : List A) {x : A}
    → all p xs ≡ true
    → first q xs ≡ some x
    → p x ≡ true
all-first p q [] h e = absurd (cc e)
all-first p q (y ∷ xs) {x} h e = ground (arith, all-first p q xs {x = x})

all-weaker {ℓ} :
    {A : Type ℓ} (p q : A → Bool) (xs : List A)
    → ((x : A) → p x ≡ true → q x ≡ true)
    → all p xs ≡ true
    → all q xs ≡ true
all-weaker p q [] h e = refl
all-weaker p q (x ∷ xs) h e = ground (arith, all-weaker p q xs h, h x)

module _ (db : Table SettingRecord) {V : Type 0} (json : Json V) (locked : List Text)
    (ttl_ms : ℕ) where
  abbrev World : Type 0
  World = Settings db json locked ttl_ms

  -- What can happen to a process and its table, at which time.
  pub data Reach : ℕ → World → Type 0 where
    boot : (table : db.State) → Reach 0 (record { table = table; cache = []; table_present = none })
    wait : {now : ℕ} {s : World} → Reach now s → (n : ℕ) → Reach (now + n) s
    read :
        {now : ℕ} {s : World}
        → Reach now s
        → (key : Text) (org : Option Text) (answers : Answers)
        → Reach now (get_setting db json locked ttl_ms key org answers now s).1
    write :
        {now : ℕ} {s : World}
        → Reach now s
        → (key : Text) (value : V) (by org : Option Text) (answers : Answers)
        → Reach now (set_setting db json locked ttl_ms key value by org answers s).1
    erase :
        {now : ℕ} {s : World}
        → Reach now s
        → (key : Text) (org : Option Text) (answers : Answers)
        → Reach now (delete_setting db json locked ttl_ms key org answers s).1
    forget :
        {now : ℕ} {s : World}
        → Reach now s
        → (scope : Option (Text × Option Text))
        → Reach now (invalidate db json locked ttl_ms scope s)
    elsewhere :
        {now : ℕ} {s : World}
        → Reach now s
        → (table : db.State) → Reach now (record s { table = table })

  -- No entry lives longer than a lifetime from now.
  abbrev expires_by : ℕ → Text × CacheEntry V → Bool
  expires_by at e = leb e.1.expires_at at

  abbrev IsBounded : ℕ → World → Type 0
  IsBounded now s = all (expires_by (now + ttl_ms)) s.cache ≡ true

  without_key-IsBounded :
      (ck : Text) (at : ℕ) (cache : List (Text × CacheEntry V))
      → all (expires_by at) cache ≡ true
      → all (expires_by at) (without_key db json locked ttl_ms ck cache) ≡ true
  without_key-IsBounded ck at cache h = all-keep (expires_by at) (λ e. not (same e.0 ck)) cache h

  has_table-IsBounded :
      (answers : Answers) (now : ℕ) (s : World)
      → IsBounded now s
      → all (expires_by (now + ttl_ms)) (has_table db json locked ttl_ms answers s).1.cache ≡ true
  has_table-IsBounded answers now s h = rw ((has_table-rest db json locked ttl_ms answers s).1) h

  get_setting-IsBounded :
      (key : Text) (org : Option Text) (answers : Answers) (now : ℕ) (s : World)
      → IsBounded now s
      → IsBounded now (get_setting db json locked ttl_ms key org answers now s).1
  unfolding get_setting read_table put_cache
  get_setting-IsBounded key org answers now s h = elim (Bool-cases (is_setting_locked locked key)) [
    | inl on ↦ rw (get_setting, on) h
    | inr off ↦ elim (Bool-cases (is_alive db json locked ttl_ms (cache_key key org) now s)) [
      | inl alive ↦
          let (e, _, hit) = get_setting-hit db json locked ttl_ms key org answers now s off alive in
          rw (hit) h
      | inr dead ↦
          let rest =
            without_key-IsBounded (cache_key key org) (now + ttl_ms)
              (has_table db json locked ttl_ms answers s).1.cache
              (has_table-IsBounded answers now s h) in
          rw (get_setting-miss db json locked ttl_ms key org answers now s off dead)
            (ground (arith, rest))
    ]
  ]

  set_setting-IsBounded :
      (key : Text) (value : V) (by org : Option Text) (answers : Answers) (now : ℕ) (s : World)
      → IsBounded now s
      → IsBounded now (set_setting db json locked ttl_ms key value by org answers s).1
  unfolding set_setting
  set_setting-IsBounded key value by org answers now s h =
      elim (Bool-cases (is_setting_locked locked key)) [
        | inl on ↦ rw (set_setting, on) h
        | inr off ↦ elim (Bool-cases (has_table db json locked ttl_ms answers s).0) [
          | inl present ↦
              rw (set_setting, off, present)
                (without_key-IsBounded (cache_key key org) (now + ttl_ms)
                  (has_table db json locked ttl_ms answers s).1.cache
                  (has_table-IsBounded answers now s h))
          | inr gone ↦ rw (set_setting, off, gone) (has_table-IsBounded answers now s h)
        ]
      ]

  delete_setting-IsBounded :
      (key : Text) (org : Option Text) (answers : Answers) (now : ℕ) (s : World)
      → IsBounded now s
      → IsBounded now (delete_setting db json locked ttl_ms key org answers s).1
  unfolding delete_setting
  delete_setting-IsBounded key org answers now s h =
      elim (Bool-cases (is_setting_locked locked key)) [
        | inl on ↦ rw (delete_setting, on) h
        | inr off ↦ elim (Bool-cases (has_table db json locked ttl_ms answers s).0) [
          | inl present ↦
              rw (delete_setting, off, present)
                (without_key-IsBounded (cache_key key org) (now + ttl_ms)
                  (has_table db json locked ttl_ms answers s).1.cache
                  (has_table-IsBounded answers now s h))
          | inr gone ↦ rw (delete_setting, off, gone) (has_table-IsBounded answers now s h)
        ]
      ]

  Reach-IsBounded : {now : ℕ} {s : World} → Reach now s → IsBounded now s
  Reach-IsBounded (boot table) = refl
  Reach-IsBounded (wait {now} {s} r n) =
      all-weaker (expires_by (now + ttl_ms)) (expires_by (now + n + ttl_ms)) s.cache
        (λ e h. ground arith) (Reach-IsBounded r)
  Reach-IsBounded (read {now} {s} r key org answers) =
      get_setting-IsBounded key org answers now s (Reach-IsBounded r)
  Reach-IsBounded (write {now} {s} r key value by org answers) =
      set_setting-IsBounded key value by org answers now s (Reach-IsBounded r)
  Reach-IsBounded (erase {now} {s} r key org answers) =
      delete_setting-IsBounded key org answers now s (Reach-IsBounded r)
  Reach-IsBounded (forget r none) = refl
  Reach-IsBounded (forget {now} {s} r (some (key, org))) =
      without_key-IsBounded (cache_key key org) (now + ttl_ms) s.cache (Reach-IsBounded r)
  Reach-IsBounded (elsewhere r table) = Reach-IsBounded r

  -- However the settings were used up to a moment, with queries that answer or not, and whatever
  -- other processes wrote by then: if nothing happens to the process or the table for a lifetime of
  -- the cache, a read then gives what the table holds. The key is not locked, the table is found
  -- (a probe that failed before is remembered), and the query of the read answers.
  pub get_setting-fresh :
      {now : ℕ} {s : World} (later : ℕ) (key : Text) (org : Option Text) (answers : Answers)
      → Reach now s
      → now + ttl_ms ≤ later
      → is_setting_locked locked key ≡ false
      → (has_table db json locked ttl_ms answers s).0 ≡ true
      → answers.select ≡ true
      → (get_setting db json locked ttl_ms key org answers later s).0
        ≡ stored_value db json locked ttl_ms key org s
  get_setting-fresh {now} {s} later key org answers r le off present selects =
      get_setting-stored db json locked ttl_ms key org answers later s off dead present selects
    where
      dead : is_alive db json locked ttl_ms (cache_key key org) later s ≡ false
      dead = elim (Option-cases (cached db json locked ttl_ms (cache_key key org) s)) [
        | inl miss ↦ rw (is_alive, miss) refl
        | inr (e, hit) ↦
            let bound =
              all-first (expires_by (now + ttl_ms)) (λ x. same x.0 (cache_key key org)) s.cache
                (Reach-IsBounded r) hit in
            rw (is_alive, hit) (late e.1.expires_at bound)
      ]
        where
          late : (at : ℕ) → leb at (now + ttl_ms) ≡ true → ltb later at ≡ false
          late at h = ground arith
