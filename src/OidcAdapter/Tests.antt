-- ===== src/OidcAdapter/Tests.antt =====
-- Artifacts in a table in memory, and the theorems at concrete ones.
use adonis_authkit.Prelude.{
  ◌≡◌, refl, not, ◌&&◌, none, some, List, [], ◌∷◌, if◌then◌else◌, str_eq, count,
}
use adonis_authkit.Db.{Table}
use adonis_authkit.Db.Memory.{memory}
use adonis_authkit.OidcAdapter.{
  OidcPayload, PayloadRow, holds, is_row, expiry, row_of, expired, parse, upsert, find, consume,
  destroy, revoke_by_grant_id,
}
use adonis_authkit.OidcAdapter.View.{
  marked, upsert-find, destroy-find, consume-find, revoke_by_grant_id_lem,
}

abbrev db : Table PayloadRow
db = memory (λ a b. is_row a.model_name a.id b)

abbrev payload : OidcPayload
payload = record { grant_id = some "g"; user_code = none; uid = none; consumed = none; rest = "{}" }

-- A session and a code of one grant.
abbrev rows : List PayloadRow
rows = row_of "Session" "a" payload none ∷ row_of "AuthorizationCode" "a" payload (some 60000) ∷ []

abbrev stored : List PayloadRow
stored =
    row_of "Session" "a" payload none ∷ row_of "AuthorizationCode" "a" payload (some 61000) ∷ []

upserted : upsert db "AuthorizationCode" "a" payload 60 1000 rows ≡ some stored
unfolding upsert
upserted = refl

found : find db "AuthorizationCode" "a" 1000 rows ≡ some payload
unfolding find parse
found = refl

upsert-find_example : find db "AuthorizationCode" "a" 2000 stored ≡ (
    if str_eq "AuthorizationCode" "AuthorizationCode" && str_eq "a" "a"
    then (if expired (expiry 60 1000) 2000 then none else some payload)
    else find db "AuthorizationCode" "a" 2000 rows)
upsert-find_example =
    upsert-find db "AuthorizationCode" "a" "AuthorizationCode" "a" payload 60 1000 2000 rows stored
      upserted

consume-find_run :
    find db "AuthorizationCode" "a" 2000 (consume db "AuthorizationCode" "a" 1000 rows) ≡ (
      if str_eq "AuthorizationCode" "AuthorizationCode" && str_eq "a" "a"
      then marked 1000 (find db "AuthorizationCode" "a" 2000 rows)
      else find db "AuthorizationCode" "a" 2000 rows)
consume-find_run =
    consume-find db "AuthorizationCode" "a" "AuthorizationCode" "a" 1000 2000 rows payload found

destroy-find_run : find db "Session" "a" 2000 (destroy db "AuthorizationCode" "a" rows) ≡ (
    if str_eq "AuthorizationCode" "Session" && str_eq "a" "a"
    then none
    else find db "Session" "a" 2000 rows)
destroy-find_run = destroy-find db "AuthorizationCode" "a" "Session" "a" 2000 rows

revoke_by_grant_id_lem_run :
    (count (λ r. holds "g" r.grant_id) (revoke_by_grant_id db "Session" "g" rows) ≡ 0)
    × (count
          (λ r. not (holds "g" r.grant_id) && str_eq r.id "a")
          (revoke_by_grant_id db "Session" "g" rows)
        ≡ count (λ r. not (holds "g" r.grant_id) && str_eq r.id "a") rows)
revoke_by_grant_id_lem_run = revoke_by_grant_id_lem db "Session" "g" (λ r. str_eq r.id "a") rows
