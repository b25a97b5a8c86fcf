-- ===== src/PersonalTokens.antt =====
-- Personal access tokens: packages/authkit-server/src/pat/lucid_pat_store.ts and pat_tokens.ts.
pub mod Lifetime
mod Tests
use adonis_authkit.Prelude.{
  ℕ, ◌+◌, ◌*◌, ◌/◌, ◌==◌, Bool, true, false, ◌&&◌, Option, none, some, List, ◌++◌, Text, codes,
  same, String, str_eq, first, if◌then◌else◌, ltb,
}
use adonis_authkit.Db.{Table}

-- Times are in milliseconds.
pub record PatRow : Type 0 where
  pub id : String
  pub user_id : String
  pub name : String
  pub token_hash : Text
  pub scopes : List String
  pub audience : Option String
  pub created_at : ℕ
  pub last_used_at : Option ℕ
  pub expires_at : Option ℕ

pub record IssuePatInput : Type 0 where
  pub account_id : String
  pub name : String
  pub scopes : List String
  pub audience : Option String
  pub expires_in_days : ℕ

-- `exp` is in seconds.
pub record ActivePat : Type 0 where
  pub account_id : String
  pub scopes : List String
  pub audience : Option String
  pub exp : Option ℕ

-- `random` is what the generator draws, in base64url.
abbrev pub generate_pat_token : Text → Text
generate_pat_token random = codes "pat_" ++ random

-- No days, or 0, are no deadline. `plus_days` adds days of the calendar to a time.
abbrev pub deadline : (ℕ → ℕ → ℕ) → ℕ → ℕ → Option ℕ
deadline plus_days days now = if days == 0 then none else some (plus_days days now)

abbrev pub past : Option ℕ → ℕ → Bool
past none now = false
past (some at) now = ltb at now

abbrev pub seconds : Option ℕ → Option ℕ
seconds none = none
seconds (some at) = some (at / 1000)

abbrev pub pat_of : PatRow → ActivePat
pat_of row = record {
  account_id = row.user_id;
  scopes = row.scopes;
  audience = row.audience;
  exp = seconds row.expires_at;
}

abbrev pub has_pat_id : String → PatRow → Bool
has_pat_id id row = str_eq row.id id

module _ (db : Table PatRow) (sha256 : Text → Text) (plus_days : ℕ → ℕ → ℕ) where
  abbrev pub new_pat : String → IssuePatInput → Text → ℕ → PatRow
  new_pat id input token now = record {
    id = id;
    user_id = input.account_id;
    name = input.name;
    token_hash = sha256 token;
    scopes = input.scopes;
    audience = input.audience;
    created_at = now;
    last_used_at = none;
    expires_at = deadline plus_days input.expires_in_days now;
  }

  -- `none` is a throw of the insert.
  unfoldable pub issue :
      String → IssuePatInput → Text → ℕ → db.State → Option ((Text × PatRow) × db.State)
  issue id input random now s =
      let row = new_pat id input (generate_pat_token random) now in
      elim (db.insert row s) [ none ↦ none | some t ↦ some ((generate_pat_token random, row), t) ]

  abbrev pub is_own : String → String → PatRow → Bool
  is_own account_id id row = str_eq row.id id && str_eq row.user_id account_id

  unfoldable pub revoke : String → String → db.State → Bool × db.State
  revoke account_id id s = elim (first (is_own account_id id) (db.rows s)) [
    | none ↦ (false, s)
    | some row ↦ (true, db.delete (has_pat_id row.id) s)
  ]

  abbrev pub has_hash : Text → PatRow → Bool
  has_hash token row = same row.token_hash (sha256 token)

  -- A use is recorded in the row.
  unfoldable pub find_active_by_token : Text → ℕ → db.State → Option ActivePat × db.State
  find_active_by_token token now s = elim (first (has_hash token) (db.rows s)) [
    | none ↦ (none, s)
    | some row ↦ if past row.expires_at now then (none, s) else (
      some (pat_of row),
      db.update (has_pat_id row.id) (λ r. record r { last_used_at = some now }) s,
    )
  ]
