-- ===== src/RedisAdapter/View.antt =====
-- redis_adapter.ts: the adapter as a map from a model and an id to a payload.
use adonis_authkit.Prelude.{
  ℕ, ◌+◌, ◌*◌, ◌==◌, ◌≡◌, refl, ◌∙◌, false, ◌&&◌, Option, none, some, if◌then◌else◌, String, str_eq,
  leb, arith, Bool-cases, inl, inr,
}
use adonis_authkit.OidcAdapter.{OidcPayload, expired, expiry}
use adonis_authkit.RedisAdapter.{
  Redis, RedisKey, model_key, grant_key, user_code_key, uid_key, same_key, RedisValue,
  payload_value, id_value, Entry, alive, touch, link_grant, link_user_code, link_uid, present,
  grant_of, uid_of, upsert, find,
}

-- What a key that was set with a lifetime is.
abbrev lasting : RedisValue → ℕ → ℕ → Entry
lasting v expires_in now = record { value = v; expires_at = expiry expires_in now }

later_alive : (now n : ℕ) → (n == 0) ≡ false → leb (now + n * 1000) now ≡ false
later_alive now n h = ground arith

module _ (redis : Redis) (name : String) where
  -- A write to a key of another kind is not seen by a model's key.
  pub touch-other :
      (k j : RedisKey) (expires_in now : ℕ) (s : redis.State)
      → same_key k j ≡ false
      → redis.entry j (touch redis name k expires_in now s) ≡ redis.entry j s
  touch-other k j expires_in now s apart = elim (Bool-cases (expires_in == 0)) [
    | inl never ↦ rw (never) refl
    | inr some_time ↦
        rw (some_time, redis.entry_expire now k (now + expires_in * 1000) j s, apart) refl
  ]

  link_grant-model :
      (g : Option String) (id model i : String) (expires_in now : ℕ) (s : redis.State)
      → redis.entry (model_key model i) (link_grant redis name g id expires_in now s)
        ≡ redis.entry (model_key model i) s
  link_grant-model none id model i expires_in now s = refl
  link_grant-model (some g) id model i expires_in now s =
      touch-other (grant_key g) (model_key model i) expires_in now
        (redis.rpush now (grant_key g) (model_key name id) s) refl
      ∙ redis.entry_rpush now (grant_key g) (model_key name id) (model_key model i) s

  link_user_code-model :
      (c : Option String) (id model i : String) (expires_in now : ℕ) (s : redis.State)
      → redis.entry (model_key model i) (link_user_code redis name c id expires_in now s)
        ≡ redis.entry (model_key model i) s
  link_user_code-model none id model i expires_in now s = refl
  link_user_code-model (some c) id model i expires_in now s =
      touch-other (user_code_key c) (model_key model i) expires_in now
        (redis.set (user_code_key c) (id_value id) s) refl
      ∙ redis.entry_set (user_code_key c) (id_value id) (model_key model i) s

  link_uid-model :
      (u : Option String) (id model i : String) (expires_in now : ℕ) (s : redis.State)
      → redis.entry (model_key model i) (link_uid redis name u id expires_in now s)
        ≡ redis.entry (model_key model i) s
  link_uid-model none id model i expires_in now s = refl
  link_uid-model (some u) id model i expires_in now s =
      touch-other (uid_key u) (model_key model i) expires_in now
        (redis.set (uid_key u) (id_value id) s) refl
      ∙ redis.entry_set (uid_key u) (id_value id) (model_key model i) s

  -- The links leave the models' keys as the first SET has left them.
  abbrev linked : String → OidcPayload → ℕ → ℕ → redis.State → redis.State
  linked id payload expires_in now s =
      link_uid redis name (uid_of redis name payload) id expires_in now (
        link_user_code redis name (present payload.user_code) id expires_in now (
          link_grant redis name (grant_of redis name payload) id expires_in now
            (redis.set (model_key name id) (payload_value payload) s)))

  linked-model :
      (id model i : String) (payload : OidcPayload) (expires_in now : ℕ) (s : redis.State)
      → redis.entry (model_key model i) (linked id payload expires_in now s) ≡ (
          if str_eq name model && str_eq id i
          then some (record { value = payload_value payload; expires_at = none })
          else redis.entry (model_key model i) s)
  linked-model id model i payload expires_in now s =
      link_uid-model (uid_of redis name payload) id model i expires_in now _
      ∙ link_user_code-model (present payload.user_code) id model i expires_in now _
      ∙ link_grant-model (grant_of redis name payload) id model i expires_in now _
      ∙ redis.entry_set (model_key name id) (payload_value payload) (model_key model i) s

  upsert-entry :
      (id model i : String) (payload : OidcPayload) (expires_in now : ℕ) (s : redis.State)
      → redis.entry (model_key model i) (upsert redis name id payload expires_in now s) ≡ (
          if str_eq name model && str_eq id i
          then some (lasting (payload_value payload) expires_in now)
          else redis.entry (model_key model i) s)
  unfolding upsert
  upsert-entry id model i payload expires_in now s =
      let before = linked-model id model i payload expires_in now s in
      elim (Bool-cases (expires_in == 0)) [
        | inl never ↦ rw (upsert, never) before
        | inr lives ↦ elim (Bool-cases (str_eq name model && str_eq id i)) [
          | inl same_ ↦
              let set : redis.entry (model_key model i) (linked id payload expires_in now s)
                  ≡ some (record { value = payload_value payload; expires_at = none }) =
                rw (same_) at before in
              rw
                (
                  upsert,
                  lives,
                  redis.entry_expire now (model_key name id) (now + expires_in * 1000)
                      (model_key model i) (linked id payload expires_in now s),
                  same_,
                  set,
                )
                refl
          | inr other ↦
              let kept : redis.entry (model_key model i) (linked id payload expires_in now s)
                  ≡ redis.entry (model_key model i) s =
                rw (other) at before in
              rw
                (
                  upsert,
                  lives,
                  redis.entry_expire now (model_key name id) (now + expires_in * 1000)
                      (model_key model i) (linked id payload expires_in now s),
                  other,
                )
                kept
        ]
      ]

  -- What was stored is found until it expires, under its model and id only; what was stored under
  -- every other one is found as before. A lifetime of 0 never expires. This is what the database
  -- adapter does.
  pub upsert-find-redis :
      (id model i : String) (payload : OidcPayload) (expires_in now later : ℕ) (s : redis.State)
      → find redis model i later (upsert redis name id payload expires_in now s) ≡ (
          if str_eq name model && str_eq id i
          then (if expired (expiry expires_in now) later then none else some payload)
          else find redis model i later s)
  unfolding find
  upsert-find-redis id model i payload expires_in now later s =
      let stored = upsert-entry id model i payload expires_in now s in
      elim (Bool-cases (str_eq name model && str_eq id i)) [
        | inr other ↦ rw (find, stored, other) refl
        | inl same_ ↦ elim (Bool-cases (expired (expiry expires_in now) later)) [
          | inl late ↦ rw (find, stored, same_, alive, late) refl
          | inr in_time ↦ rw (find, stored, same_, alive, in_time) refl
        ]
      ]
