-- ===== src/OidcAdapter.antt =====
-- The store of the OIDC provider's artifacts: packages/authkit-server/src/adapters/database_adapter.ts.
pub mod View
mod Tests
use adonis_authkit.Prelude.{
  ℕ, ◌+◌, ◌*◌, ◌/◌, ◌==◌, Bool, true, false, ◌&&◌, Option, none, some, List, if◌then◌else◌, leb,
  String, str_eq, first,
}
use adonis_authkit.Db.{Table}

-- The fields that the adapter reads or writes; `rest` is what else the provider stores.
pub record OidcPayload : Type 0 where
  pub grant_id : Option String
  pub user_code : Option String
  pub uid : Option String
  pub consumed : Option ℕ
  pub rest : String

-- `payload` is a column of JSON text, and is taken as the value it prints. `expires_at` is in
-- milliseconds.
pub record PayloadRow : Type 0 where
  pub id : String
  pub model_name : String
  pub payload : OidcPayload
  pub grant_id : Option String
  pub user_code : Option String
  pub uid : Option String
  pub expires_at : Option ℕ

abbrev pub holds : String → Option String → Bool
holds value none = false
holds value (some v) = str_eq v value

abbrev pub is_row : String → String → PayloadRow → Bool
is_row name id row = str_eq row.model_name name && str_eq row.id id

-- A lifetime of 0 seconds is none.
abbrev pub expiry : ℕ → ℕ → Option ℕ
expiry expires_in now = if expires_in == 0 then none else some (now + expires_in * 1000)

abbrev pub row_of : String → String → OidcPayload → Option ℕ → PayloadRow
row_of name id payload expires_at = record {
  id = id;
  model_name = name;
  payload = payload;
  grant_id = payload.grant_id;
  user_code = payload.user_code;
  uid = payload.uid;
  expires_at = expires_at;
}

abbrev pub expired : Option ℕ → ℕ → Bool
expired none now = false
expired (some at) now = leb at now

unfoldable pub parse : Option PayloadRow → ℕ → Option OidcPayload
parse none now = none
parse (some row) now = if expired row.expires_at now then none else some row.payload

-- `name` is the model of the adapter, and `now` in milliseconds.
module _ (db : Table PayloadRow) (name : String) where
  abbrev pub existing : String → db.State → Option PayloadRow
  existing id s = first (is_row name id) (db.rows s)

  -- `none` is a throw of the insert.
  unfoldable pub upsert : String → OidcPayload → ℕ → ℕ → db.State → Option db.State
  upsert id payload expires_in now s = elim (existing id s) [
    | some row ↦
        some (db.update (is_row name id) (λ r. row_of name id payload (expiry expires_in now)) s)
    | none ↦ db.insert (row_of name id payload (expiry expires_in now)) s
  ]

  unfoldable pub find : String → ℕ → db.State → Option OidcPayload
  find id now s = parse (existing id s) now

  unfoldable pub find_by_uid : String → ℕ → db.State → Option OidcPayload
  unfolding parse
  find_by_uid uid now s =
      parse (first (λ r. str_eq r.model_name name && holds uid r.uid) (db.rows s)) now

  unfoldable pub find_by_user_code : String → ℕ → db.State → Option OidcPayload
  unfolding parse
  find_by_user_code code now s =
      parse (first (λ r. str_eq r.model_name name && holds code r.user_code) (db.rows s)) now

  -- Only the payload is written, and what is gone or expired is left alone.
  unfoldable pub consume : String → ℕ → db.State → db.State
  unfolding find
  consume id now s = elim (find id now s) [
    | none ↦ s
    | some payload ↦
        db.update (is_row name id)
          (λ r. record r { payload = record payload { consumed = some (now / 1000) } }) s
  ]

  unfoldable pub destroy : String → db.State → db.State
  destroy id s = db.delete (is_row name id) s

  -- The artifacts of a grant, of every model.
  unfoldable pub revoke_by_grant_id : String → db.State → db.State
  revoke_by_grant_id grant s = db.delete (λ r. holds grant r.grant_id) s
