-- ===== src/RedisAdapter/Tests.antt =====
-- Redis as a function from keys, and the theorems at concrete artifacts.
use adonis_authkit.Prelude.{◌≡◌, refl, ◌&&◌, Option, none, some, if◌then◌else◌, str_eq}
use adonis_authkit.OidcAdapter.{OidcPayload, expired, expiry}
use adonis_authkit.RedisAdapter.{
  Redis, RedisKey, same_key, Entry, alive, until, pushed, upsert, find, find_by_uid, consume,
  destroy, revoke_by_grant_id,
}
use adonis_authkit.RedisAdapter.View.{upsert-find-redis}
use adonis_authkit.RedisAdapter.Revocation.{revoke_by_grant_id-upsert}

abbrev Entries : Type 0
Entries = RedisKey → Option Entry

abbrev redis : Redis
redis = record {
  State = Entries;
  entry = λ k s. s k;
  set = λ k v s j. if same_key k j then some (record { value = v; expires_at = none }) else s j;
  expire = λ now k at s j. if same_key k j then until at (alive now (s j)) else s j;
  rpush = λ now k x s j. if same_key k j then some (pushed x (alive now (s j))) else s j;
  del = λ k s j. if same_key k j then none else s j;
  ttl = λ now k s. 0;
  entry_set = λ k v j s. refl;
  entry_expire = λ now k at j s. refl;
  entry_rpush = λ now k x j s. refl;
  entry_del = λ k j s. refl;
}

abbrev payload : OidcPayload
payload = record { grant_id = some "g"; user_code = none; uid = none; consumed = none; rest = "{}" }

-- A refresh token for an hour, and then an access token for a minute, of one grant.
abbrev refreshed : Entries
refreshed = upsert redis "RefreshToken" "r" payload 3600 1000 (λ k. none)

abbrev issued : Entries
issued = upsert redis "AccessToken" "a" payload 60 1000 refreshed

run : Unit {0}
unfolding upsert find find_by_uid consume destroy revoke_by_grant_id
run = tt

-- The revocation reaches both in time, and the refresh token no more once the access token is gone.
revocations :
    (find redis "RefreshToken" "r" 60999 (revoke_by_grant_id redis "Grant" "g" 60999 issued) ≡ none)
    × (find redis "RefreshToken" "r" 61000 (revoke_by_grant_id redis "Grant" "g" 61000 issued)
        ≡ some payload)
unfolding run
revocations = (refl, refl)

upsert-find-redis_example : find redis "RefreshToken" "r" 5000 issued ≡ (
    if str_eq "AccessToken" "RefreshToken" && str_eq "a" "r"
    then (if expired (expiry 60 1000) 5000 then none else some payload)
    else find redis "RefreshToken" "r" 5000 refreshed)
upsert-find-redis_example =
    upsert-find-redis redis "AccessToken" "a" "RefreshToken" "r" payload 60 1000 5000 refreshed

revoke_by_grant_id-upsert_example :
    find redis "RefreshToken" "r" 61000 (revoke_by_grant_id redis "AccessToken" "g" 61000 issued)
    ≡ find redis "RefreshToken" "r" 61000 issued
unfolding run
revoke_by_grant_id-upsert_example =
    revoke_by_grant_id-upsert redis "AccessToken" "a" "RefreshToken" "r" "g" payload 60 1000 61000
      61000 refreshed refl refl
