-- ===== src/PersonalTokens/Tests.antt =====
-- The theorems on personal access tokens at a concrete token.
use adonis_authkit.Prelude.{
  ℕ, ◌+◌, ◌*◌, ◌≤◌, ◌≡◌, refl, true, none, some, [], ◌∷◌, Text, codes, same, arith, count,
}
use adonis_authkit.Db.{Table}
use adonis_authkit.Db.Memory.{memory}
use adonis_authkit.PersonalTokens.{
  PatRow, IssuePatInput, ActivePat, new_pat, issue, revoke, find_active_by_token, has_hash,
}
use adonis_authkit.PersonalTokens.Lifetime.{
  uses, issue-find_active_by_token, revoke-find_active_by_token,
}

abbrev db : Table PatRow
db = memory (λ a b. same a.token_hash b.token_hash)

abbrev input : IssuePatInput
input = record {
  account_id = "u";
  name = "ci";
  scopes = "read" ∷ [];
  audience = none;
  expires_in_days = 1;
}

abbrev hash : Text → Text
hash s = s

-- Days without a change of the clocks.
abbrev plus_days : ℕ → ℕ → ℕ
plus_days days at = at + days * 86400000

abbrev token : Text
token = codes "pat_x"

abbrev row : PatRow
row = new_pat db hash plus_days "1" input token 1000

run : Unit {0}
unfolding same issue revoke find_active_by_token
run = tt

issued : issue db hash plus_days "1" input (codes "x") 1000 [] ≡ some ((token, row), row ∷ [])
unfolding run
issued = refl

abbrev active : ActivePat
active = record { account_id = "u"; scopes = "read" ∷ []; audience = none; exp = some 86401 }

issue-find_active_by_token_example :
    (token ≡ codes "pat_x")
    × ((find_active_by_token db hash plus_days token 86401000
          (uses db hash plus_days token (2000 ∷ 3000 ∷ []) (row ∷ []))).0
        ≡ some active)
unfolding run
issue-find_active_by_token_example =
    issue-find_active_by_token db hash plus_days "1" input (codes "x") 1000 86401000
      (2000 ∷ 3000 ∷ []) [] (row ∷ []) (token, row) refl issued

expired_token : (find_active_by_token db hash plus_days token 86401001 (row ∷ [])).0 ≡ none
unfolding run
expired_token = refl

row_unique : count (has_hash db hash plus_days token) (row ∷ []) ≤ 1
unfolding run
row_unique = omega arith

revoke-find_active_by_token_example :
    ((revoke db hash plus_days "u" "1" (row ∷ [])).0 ≡ true)
    × (find_active_by_token db hash plus_days token 2000
          (revoke db hash plus_days "u" "1" (row ∷ [])).1
        ≡ (none, (revoke db hash plus_days "u" "1" (row ∷ [])).1))
revoke-find_active_by_token_example =
    revoke-find_active_by_token db hash plus_days "u" "1" token 2000 (row ∷ []) row refl refl
      row_unique
