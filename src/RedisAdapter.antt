-- ===== src/RedisAdapter.antt =====
-- The artifacts of the OIDC provider in Redis: packages/authkit-server/src/adapters/redis_adapter.ts.
-- ioredis is an interface.
pub mod View
pub mod Revocation
mod Tests
use adonis_authkit.Prelude.{
  ℕ, ◌+◌, ◌*◌, ◌/◌, ◌==◌, ◌≡◌, Bool, true, false, ◌&&◌, Option, none, some, List, [], ◌∷◌, ◌++◌,
  if◌then◌else◌, String, str_eq, some_of,
}
use adonis_authkit.OidcAdapter.{OidcPayload, expired}

-- The four kinds of keys. As text they share a prefix, and no model is called like a kind.
pub data RedisKey : Type 0 where
  model_key : String → String → RedisKey
  grant_key user_code_key uid_key : String → RedisKey

abbrev pub same_key : RedisKey → RedisKey → Bool
same_key (model_key m i) (model_key n j) = str_eq m n && str_eq i j
same_key (grant_key g) (grant_key h) = str_eq g h
same_key (user_code_key c) (user_code_key d) = str_eq c d
same_key (uid_key u) (uid_key v) = str_eq u v
same_key _ _ = false

-- The JSON of a payload is taken as the payload that it prints.
pub data RedisValue : Type 0 where
  payload_value : OidcPayload → RedisValue
  id_value : String → RedisValue
  key_list : List RedisKey → RedisValue

pub record Entry : Type 0 where
  pub value : RedisValue
  pub expires_at : Option ℕ

abbrev pub alive : ℕ → Option Entry → Option Entry
alive now none = none
alive now (some e) = if expired e.expires_at now then none else some e

abbrev pub until : ℕ → Option Entry → Option Entry
until at none = none
until at (some e) = some (record e { expires_at = some at })

abbrev pub pushed : RedisKey → Option Entry → Entry
pushed k none = record { value = key_list (k ∷ []); expires_at = none }
pushed k (some e) = elim e.value [
  | key_list ks ↦ record e { value = key_list (ks ++ k ∷ []) }
  | _ ↦ e
]

-- The commands as they are documented: SET drops a deadline, EXPIRE changes a key that is there,
-- RPUSH keeps the deadline of a list that is there and else starts one without. `ttl` is in seconds,
-- and 0 where the key has no deadline or is not there. Times are in milliseconds.
pub record Redis : Type 1 where
  pub State : Type 0
  pub entry : RedisKey → State → Option Entry
  pub set : RedisKey → RedisValue → State → State
  pub expire : ℕ → RedisKey → ℕ → State → State
  pub rpush : ℕ → RedisKey → RedisKey → State → State
  pub del : RedisKey → State → State
  pub ttl : ℕ → RedisKey → State → ℕ
  pub entry_set :
      (k : RedisKey) (v : RedisValue) (j : RedisKey) (s : State)
      → entry j (set k v s)
        ≡ (if same_key k j then some (record { value = v; expires_at = none }) else entry j s)
  pub entry_expire :
      (now : ℕ) (k : RedisKey) (at : ℕ) (j : RedisKey) (s : State)
      → entry j (expire now k at s)
        ≡ (if same_key k j then until at (alive now (entry j s)) else entry j s)
  pub entry_rpush :
      (now : ℕ) (k x j : RedisKey) (s : State)
      → entry j (rpush now k x s)
        ≡ (if same_key k j then some (pushed x (alive now (entry j s))) else entry j s)
  pub entry_del :
      (k j : RedisKey) (s : State) → entry j (del k s) ≡ (if same_key k j then none else entry j s)

abbrev pub grantable : List String
grantable =
    "AccessToken" ∷ "AuthorizationCode" ∷ "RefreshToken" ∷ "DeviceCode"
    ∷ "BackchannelAuthenticationRequest" ∷ []

-- An empty text counts as none.
abbrev pub present : Option String → Option String
present none = none
present (some t) = if str_eq t "" then none else some t

abbrev pub payload_of : Option Entry → Option OidcPayload
payload_of none = none
payload_of (some e) = elim e.value [ payload_value p ↦ some p | _ ↦ none ]

abbrev pub id_of : Option Entry → Option String
id_of none = none
id_of (some e) = elim e.value [ id_value id ↦ some id | _ ↦ none ]

abbrev pub keys_of : Option Entry → List RedisKey
keys_of none = []
keys_of (some e) = elim e.value [ key_list ks ↦ ks | _ ↦ [] ]

module _ (redis : Redis) (name : String) where
  -- A deadline, where the lifetime is not 0.
  abbrev pub touch : RedisKey → ℕ → ℕ → redis.State → redis.State
  touch k expires_in now s =
      if expires_in == 0 then s else redis.expire now k (now + expires_in * 1000) s

  abbrev pub link_grant : Option String → String → ℕ → ℕ → redis.State → redis.State
  link_grant none id expires_in now s = s
  link_grant (some g) id expires_in now s =
      touch (grant_key g) expires_in now (redis.rpush now (grant_key g) (model_key name id) s)

  abbrev pub link_user_code : Option String → String → ℕ → ℕ → redis.State → redis.State
  link_user_code none id expires_in now s = s
  link_user_code (some c) id expires_in now s =
      touch (user_code_key c) expires_in now (redis.set (user_code_key c) (id_value id) s)

  abbrev pub link_uid : Option String → String → ℕ → ℕ → redis.State → redis.State
  link_uid none id expires_in now s = s
  link_uid (some u) id expires_in now s =
      touch (uid_key u) expires_in now (redis.set (uid_key u) (id_value id) s)

  abbrev pub is_grantable : Bool
  is_grantable = some_of (str_eq name) grantable

  abbrev pub grant_of : OidcPayload → Option String
  grant_of payload = if is_grantable then present payload.grant_id else none

  abbrev pub uid_of : OidcPayload → Option String
  uid_of payload = if str_eq name "Session" then present payload.uid else none

  -- One transaction.
  unfoldable pub upsert : String → OidcPayload → ℕ → ℕ → redis.State → redis.State
  upsert id payload expires_in now s = touch (model_key name id) expires_in now (
      link_uid (uid_of payload) id expires_in now (
        link_user_code (present payload.user_code) id expires_in now (
          link_grant (grant_of payload) id expires_in now
            (redis.set (model_key name id) (payload_value payload) s))))

  abbrev pub get : RedisKey → ℕ → redis.State → Option Entry
  get k now s = alive now (redis.entry k s)

  unfoldable pub find : String → ℕ → redis.State → Option OidcPayload
  find id now s = payload_of (get (model_key name id) now s)

  unfoldable pub find_by_uid : String → ℕ → redis.State → Option OidcPayload
  unfolding find
  find_by_uid uid now s = elim (id_of (get (uid_key uid) now s)) [
    | none ↦ none
    | some id ↦ find id now s
  ]

  unfoldable pub find_by_user_code : String → ℕ → redis.State → Option OidcPayload
  unfolding find
  find_by_user_code code now s = elim (id_of (get (user_code_key code) now s)) [
    | none ↦ none
    | some id ↦ find id now s
  ]

  abbrev pub set_ex : RedisKey → RedisValue → ℕ → ℕ → redis.State → redis.State
  set_ex k v ttl now s =
      if ttl == 0 then redis.set k v s else redis.expire now k (now + ttl * 1000) (redis.set k v s)

  unfoldable pub consume : String → ℕ → redis.State → redis.State
  unfolding find
  consume id now s = elim (find id now s) [
    | none ↦ s
    | some payload ↦
        set_ex (model_key name id) (payload_value (record payload { consumed = some (now / 1000) }))
          (redis.ttl now (model_key name id) s) now s
  ]

  unfoldable pub destroy : String → redis.State → redis.State
  destroy id s = redis.del (model_key name id) s

  abbrev pub del_all : List RedisKey → redis.State → redis.State
  del_all [] s = s
  del_all (k ∷ ks) s = del_all ks (redis.del k s)

  -- The keys that the list of the grant names, and the list.
  unfoldable pub revoke_by_grant_id : String → ℕ → redis.State → redis.State
  revoke_by_grant_id grant now s =
      redis.del (grant_key grant) (del_all (keys_of (get (grant_key grant) now s)) s)
