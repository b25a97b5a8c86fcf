-- ===== src/Orgs.antt =====
-- Organisations: packages/authkit-server/src/accounts/lucid_store/organizations.ts. Dates are
-- milliseconds; new ids, tokens and the clock are arguments.
pub mod Invitations
pub mod Members
pub mod Owners
pub mod Lifecycle
mod Tests
use adonis_authkit.Prelude.{
  ℕ, ◌+◌, ◌*◌, ◌≡◌, Bool, true, false, not, ◌&&◌, Option, none, some, List, [], ◌∷◌, ◌++◌,
  if◌then◌else◌, first, keep, count, length, ltb, leb, str_eq, String, is_some,
}
use adonis_authkit.Db.{Table}

pub record OrgRow : Type 0 where
  pub id : String
  pub name : String
  pub slug : String
  pub logo_url : Option String
  pub metadata : Option String
  pub created_at : ℕ

pub record MemberRow : Type 0 where
  pub id : String
  pub organization_id : String
  pub account_id : String
  pub role : String
  pub created_at : ℕ

-- A stored expiry: none, a time, or a text that is no date.
pub data Expiry : Type 0 where
  absent : Expiry
  at_ms : ℕ → Expiry
  unreadable : Expiry

pub record InvitationRow : Type 0 where
  pub id : String
  pub organization_id : String
  pub email : String
  pub role : String
  pub token_hash : String
  pub invited_by : String
  pub expires_at : Expiry
  pub accepted_at : Option ℕ
  pub created_at : ℕ

pub record OrgDb : Type 1 where
  pub orgs : Table OrgRow
  pub members : Table MemberRow
  pub invitations : Table InvitationRow

pub record OrgStore (db : OrgDb) : Type 0 where
  pub orgs : db.orgs.State
  pub members : db.members.State
  pub invitations : db.invitations.State

pub record OrgSummary : Type 0 where
  pub id : String
  pub name : String
  pub slug : String
  pub logo_url : Option String
  pub metadata : Option String
  pub created_at : ℕ

abbrev pub to_org_summary : OrgRow → OrgSummary
to_org_summary row = record {
  id = row.id;
  name = row.name;
  slug = row.slug;
  logo_url = row.logo_url;
  metadata = row.metadata;
  created_at = row.created_at;
}

pub record OrgMember : Type 0 where
  pub account_id : String
  pub email : Option String
  pub role : String
  pub joined_at : ℕ

pub record OrgInvitation : Type 0 where
  pub id : String
  pub organization_id : String
  pub email : String
  pub role : String
  pub invited_by : String
  pub expires_at : Expiry
  pub accepted_at : Option ℕ
  pub created_at : ℕ

abbrev pub to_org_invitation : InvitationRow → OrgInvitation
to_org_invitation row = record {
  id = row.id;
  organization_id = row.organization_id;
  email = row.email;
  role = row.role;
  invited_by = row.invited_by;
  expires_at = row.expires_at;
  accepted_at = row.accepted_at;
  created_at = row.created_at;
}

pub data OrgReason : Type 0 where
  not_found last_owner expired email_mismatch : OrgReason

pub data OrgResult : Type 0 where
  done : OrgResult
  refused : OrgReason → OrgResult

-- Where `organization_id` is the org, where `role` is 'owner', and so on.
abbrev pub in_org : String → MemberRow → Bool
in_org org r = str_eq r.organization_id org

abbrev pub is_owner_of : String → MemberRow → Bool
is_owner_of org r = str_eq r.organization_id org && str_eq r.role "owner"

abbrev pub is_member : String → String → MemberRow → Bool
is_member org account r = str_eq r.organization_id org && str_eq r.account_id account

abbrev pub has_member_id : String → MemberRow → Bool
has_member_id id r = str_eq r.id id

abbrev pub with_role : String → MemberRow → MemberRow
with_role role r = record r { role = role }

-- A time before now; an absent date counts as 0 and a text that is no date as past.
abbrev pub past : Expiry → ℕ → Bool
past absent now = ltb 0 now
past (at_ms t) now = ltb t now
past unreadable now = true

pub record OrgInput : Type 0 where
  pub name : String
  pub slug : String
  pub logo_url : Option String
  pub metadata : Option String
  pub owner_account_id : String

-- An absent field is `undefined` and leaves the column.
pub record OrgPatch : Type 0 where
  pub name : Option String
  pub logo_url : Option (Option String)
  pub metadata : Option (Option String)

abbrev pub or_kept {ℓ} : {A : Type ℓ} → Option A → A → A
or_kept none old = old
or_kept (some new) old = new

abbrev pub patched : OrgPatch → OrgRow → OrgRow
patched patch row = record row {
  name = or_kept patch.name row.name;
  logo_url = or_kept patch.logo_url row.logo_url;
  metadata = or_kept patch.metadata row.metadata;
}

pub record InvitationInput : Type 0 where
  pub organization_id : String
  pub email : String
  pub role : String
  pub invited_by : String
  pub ttl_hours : ℕ

-- `row.delete()` and `row.save()` go by the row's key.
module _ (db : OrgDb) where
  abbrev pub count_owners : String → OrgStore db → ℕ
  count_owners org s = count (is_owner_of org) (db.members.rows s.members)

  abbrev pub find_member : String → String → OrgStore db → Option MemberRow
  find_member org account s = first (is_member org account) (db.members.rows s.members)

  abbrev pub find_org_row : String → OrgStore db → Option OrgRow
  find_org_row id s = first (λ r. str_eq r.id id) (db.orgs.rows s.orgs)

  -- `none` is a throw of the database; what was written before it stays written.
  pub create_org : OrgInput → String → String → ℕ → OrgStore db → Option OrgSummary × OrgStore db
  create_org input org_id member_id now s =
      let row : OrgRow = record {
        id = org_id;
        name = input.name;
        slug = input.slug;
        logo_url = input.logo_url;
        metadata = input.metadata;
        created_at = now;
      } in
      let owner : MemberRow = record {
        id = member_id;
        organization_id = org_id;
        account_id = input.owner_account_id;
        role = "owner";
        created_at = now;
      } in
      elim (db.orgs.insert row s.orgs) [
        | none ↦ (none, s)
        | some orgs ↦ elim (db.members.insert owner s.members) [
          | none ↦ (none, record s { orgs = orgs })
          | some members ↦ (some (to_org_summary row), record s { orgs = orgs; members = members })
        ]
      ]

  pub find_org_by_id : String → OrgStore db → Option OrgSummary
  find_org_by_id id s = elim (find_org_row id s) [
    | none ↦ none
    | some row ↦ some (to_org_summary row)
  ]

  pub find_org_by_slug : String → OrgStore db → Option OrgSummary
  find_org_by_slug slug s = elim (first (λ r. str_eq r.slug slug) (db.orgs.rows s.orgs)) [
    | none ↦ none
    | some row ↦ some (to_org_summary row)
  ]

  -- The loop of `listOrgsForAccount`; a membership whose org is gone is left out.
  pub orgs_of : OrgStore db → List MemberRow → List (OrgSummary × String)
  orgs_of s [] = []
  orgs_of s (m ∷ ms) =
      let rest = orgs_of s ms in
      elim (find_org_row m.organization_id s) [
        | none ↦ rest
        | some org ↦ (to_org_summary org, m.role) ∷ rest
      ]

  pub list_orgs_for_account : String → OrgStore db → List (OrgSummary × String)
  unfolding orgs_of
  list_orgs_for_account account s =
      orgs_of s (keep (λ r. str_eq r.account_id account) (db.members.rows s.members))

  pub update_org : String → OrgPatch → OrgStore db → Option OrgSummary × OrgStore db
  update_org id patch s = elim (find_org_row id s) [
    | none ↦ (none, s)
    | some row ↦ (
      some (to_org_summary (patched patch row)),
      record s { orgs = db.orgs.update (λ r. str_eq r.id row.id) (patched patch) s.orgs },
    )
  ]

  pub delete_org : String → OrgStore db → Bool × OrgStore db
  delete_org id s = elim (find_org_row id s) [
    | none ↦ (false, s)
    | some row ↦ (
      true,
      record s {
        orgs = db.orgs.delete (λ r. str_eq r.id row.id) s.orgs;
        members = db.members.delete (in_org id) s.members;
        invitations = db.invitations.delete (λ r. str_eq r.organization_id id) s.invitations;
      },
    )
  ]
