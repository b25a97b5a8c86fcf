-- ===== src/RedisAdapter/Revocation.antt =====
-- redis_adapter.ts: what the revocation of a grant reaches.
use adonis_authkit.Prelude.{
  ℕ, ◌+◌, ◌*◌, ◌==◌, ◌≡◌, refl, ap, ◌∙◌, Bool, false, not, ◌&&◌, Option, none, some, List, [], ◌∷◌,
  if◌then◌else◌, String, eq_refl, leb, some_of, Bool-cases, inl, inr,
}
use adonis_authkit.OidcAdapter.{OidcPayload, expired}
use adonis_authkit.RedisAdapter.{
  Redis, RedisKey, model_key, grant_key, user_code_key, uid_key, same_key, RedisValue,
  payload_value, id_value, key_list, Entry, alive, until, pushed, payload_of, keys_of, link_grant,
  link_user_code, link_uid, present, grant_of, uid_of, upsert, get, find, del_all,
  revoke_by_grant_id,
}
use adonis_authkit.RedisAdapter.View.{touch-other}

abbrev pub is_listed : RedisKey → List RedisKey → Bool
is_listed j ks = some_of (λ k. same_key k j) ks

-- A list that is extended is alive, and takes a deadline.
alive-pushed :
    (now at : ℕ) (k : RedisKey) (e : Option Entry)
    → until at (alive now (some (pushed k (alive now e))))
      ≡ some (record (pushed k (alive now e)) { expires_at = some at })
alive-pushed now at k none = refl
alive-pushed now at k (some e) = elim (Bool-cases (expired e.expires_at now)) [
  | inl gone ↦ rw (alive, gone) refl
  | inr there ↦ rw (alive, there) (go e.value e.expires_at there)
]
  where
    go :
        (v : RedisValue) (x : Option ℕ)
        → expired x now ≡ false
        → let e' : Entry = record { value = v; expires_at = x } in
          until at (alive now (some (pushed k (some e'))))
          ≡ some (record (pushed k (some e')) { expires_at = some at })
    go (payload_value p) x h = rw (h) refl
    go (id_value i) x h = rw (h) refl
    go (key_list ks) x h = rw (h) refl

module _ (redis : Redis) (name : String) where
  del_all-entry :
      (ks : List RedisKey) (j : RedisKey) (s : redis.State)
      → redis.entry j (del_all redis name ks s) ≡ (if is_listed j ks then none else redis.entry j s)
  del_all-entry [] j s = refl
  del_all-entry (k ∷ ks) j s =
      let rest = del_all-entry ks j (redis.del k s) in
      elim (Bool-cases (same_key k j)) [
        | inl here ↦ elim (Bool-cases (is_listed j ks)) [
          | inl listed ↦ rw (here) (rw (listed) at rest)
          | inr unlisted ↦
              rw (here) ((rw (unlisted) at rest) ∙ rw (redis.entry_del k j s, here) refl)
        ]
        | inr other ↦ rw (other) (rw (redis.entry_del k j s, other) at rest)
      ]

  revoke-find :
      (model i grant : String) (now later : ℕ) (s : redis.State)
      → find redis model i later (revoke_by_grant_id redis name grant now s) ≡ (
          if is_listed (model_key model i) (keys_of (get redis name (grant_key grant) now s))
          then none
          else find redis model i later s)
  unfolding find revoke_by_grant_id
  revoke-find model i grant now later s =
      let ks = keys_of (get redis name (grant_key grant) now s) in
      let left =
        redis.entry_del (grant_key grant) (model_key model i) (del_all redis name ks s)
        ∙ del_all-entry ks (model_key model i) s in
      elim (Bool-cases (is_listed (model_key model i) ks)) [
        | inl listed ↦ rw (listed) (ap (λ e. payload_of (alive later e)) (rw (listed) at left))
        | inr unlisted ↦
            rw (unlisted) (ap (λ e. payload_of (alive later e)) (rw (unlisted) at left))
      ]

  -- The other links do not reach the list of the grant.
  link_user_code-grant :
      (c : Option String) (id grant : String) (expires_in now : ℕ) (s : redis.State)
      → redis.entry (grant_key grant) (link_user_code redis name c id expires_in now s)
        ≡ redis.entry (grant_key grant) s
  link_user_code-grant none id grant expires_in now s = refl
  link_user_code-grant (some c) id grant expires_in now s =
      touch-other redis name (user_code_key c) (grant_key grant) expires_in now
        (redis.set (user_code_key c) (id_value id) s) refl
      ∙ redis.entry_set (user_code_key c) (id_value id) (grant_key grant) s

  link_uid-grant :
      (u : Option String) (id grant : String) (expires_in now : ℕ) (s : redis.State)
      → redis.entry (grant_key grant) (link_uid redis name u id expires_in now s)
        ≡ redis.entry (grant_key grant) s
  link_uid-grant none id grant expires_in now s = refl
  link_uid-grant (some u) id grant expires_in now s =
      touch-other redis name (uid_key u) (grant_key grant) expires_in now
        (redis.set (uid_key u) (id_value id) s) refl
      ∙ redis.entry_set (uid_key u) (id_value id) (grant_key grant) s

  -- The list of a grant after an artifact of it was stored.
  abbrev extended : String → String → ℕ → ℕ → redis.State → Entry
  extended id grant expires_in now s =
      record (pushed (model_key name id) (alive now (redis.entry (grant_key grant) s))) {
        expires_at = some (now + expires_in * 1000);
      }

  link_grant-grant :
      (id grant : String) (expires_in now : ℕ) (s : redis.State)
      → (expires_in == 0) ≡ false
      → redis.entry (grant_key grant) (link_grant redis name (some grant) id expires_in now s)
        ≡ some (extended id grant expires_in now s)
  link_grant-grant id grant expires_in now s lives =
      rw
        (
          lives,
          redis.entry_expire now (grant_key grant) (now + expires_in * 1000) (grant_key grant)
              (redis.rpush now (grant_key grant) (model_key name id) s),
          redis.entry_rpush now (grant_key grant) (model_key name id) (grant_key grant) s,
          eq_refl grant,
        )
        (alive-pushed now (now + expires_in * 1000) (model_key name id)
          (redis.entry (grant_key grant) s))

  grant-entry :
      (id grant : String) (payload : OidcPayload) (expires_in now : ℕ) (s : redis.State)
      → grant_of redis name payload ≡ some grant
      → (expires_in == 0) ≡ false
      → redis.entry (grant_key grant) (upsert redis name id payload expires_in now s)
        ≡ some (extended id grant expires_in now s)
  unfolding upsert
  grant-entry id grant payload expires_in now s g lives =
      touch-other redis name (model_key name id) (grant_key grant) expires_in now _ refl
      ∙ link_uid-grant (uid_of redis name payload) id grant expires_in now _
      ∙ link_user_code-grant (present payload.user_code) id grant expires_in now _
      ∙ ap
          (λ o. redis.entry (grant_key grant) (
            link_grant redis name o id expires_in now
              (redis.set (model_key name id) (payload_value payload) s)))
          g
      ∙ link_grant-grant id grant expires_in now
          (redis.set (model_key name id) (payload_value payload) s) lives
      ∙ ap
          (λ e. some (record (pushed (model_key name id) (alive now e)) {
            expires_at = some (now + expires_in * 1000);
          }))
          (redis.entry_set (model_key name id) (payload_value payload) (grant_key grant) s)

  -- Before the lifetime of the artifact that was stored last for a grant has passed, a revocation
  -- takes all that is listed for the grant. From then on it takes nothing, and what was stored with
  -- a longer lifetime is found as before.
  pub revoke_by_grant_id-upsert :
      (id model i grant : String) (payload : OidcPayload) (expires_in now later at : ℕ)
      (s : redis.State)
      → grant_of redis name payload ≡ some grant
      → (expires_in == 0) ≡ false
      → let u = upsert redis name id payload expires_in now s in
        let listed =
          keys_of (some (pushed (model_key name id) (get redis name (grant_key grant) now s))) in
        find redis model i at (revoke_by_grant_id redis name grant later u) ≡ (
          if not (leb (now + expires_in * 1000) later) && is_listed (model_key model i) listed
          then none
          else find redis model i at u)
  revoke_by_grant_id-upsert id model i grant payload expires_in now later at s g lives =
      let u = upsert redis name id payload expires_in now s in
      let there = grant-entry id grant payload expires_in now s g lives in
      elim (Bool-cases (leb (now + expires_in * 1000) later)) [
        | inl late ↦ rw (revoke-find model i grant later at u, there, late) refl
        | inr in_time ↦ rw (revoke-find model i grant later at u, there, in_time) refl
      ]
