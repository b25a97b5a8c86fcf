-- ===== src/Orgs/Members.antt =====
-- organizations.ts: the members of an organisation and their roles.
use adonis_authkit.Prelude.{
  ℕ, Bool, true, false, not, ◌&&◌, Option, none, some, List, [], ◌∷◌, if◌then◌else◌, keep, leb,
  str_eq, String,
}
use adonis_authkit.Orgs.{
  MemberRow, OrgDb, OrgStore, OrgMember, OrgResult, done, refused, not_found, last_owner, in_org,
  has_member_id, with_role, count_owners, find_member,
}

module _ (db : OrgDb) where
  members_from : List MemberRow → List OrgMember
  members_from [] = []
  members_from (r ∷ rs) =
      record { account_id = r.account_id; email = none; role = r.role; joined_at = r.created_at }
      ∷ members_from rs

  pub list_org_members : String → OrgStore db → List OrgMember
  unfolding members_from
  list_org_members org s = members_from (keep (in_org org) (db.members.rows s.members))

  abbrev pub save_role : MemberRow → String → OrgStore db → OrgStore db
  save_role row role s = record s {
    members = db.members.update (has_member_id row.id) (with_role role) s.members;
  }

  abbrev insert_member : MemberRow → OrgStore db → Bool × OrgStore db
  insert_member row s = elim (db.members.insert row s.members) [
    | none ↦ (false, s)
    | some members ↦ (true, record s { members = members })
  ]

  -- An upsert: the role of an existing membership is overwritten. `false` is a throw.
  unfoldable pub add_org_member :
      String → String → String → String → ℕ → OrgStore db → Bool × OrgStore db
  add_org_member org account role member_id now s = elim (find_member db org account s) [
    | some existing ↦ (true, save_role existing role s)
    | none ↦
        insert_member
          (record {
            id = member_id;
            organization_id = org;
            account_id = account;
            role = role;
            created_at = now;
          })
          s
  ]

  abbrev removed : MemberRow → OrgStore db → OrgResult × OrgStore db
  removed row s = (done, record s { members = db.members.delete (has_member_id row.id) s.members })

  unfoldable pub remove_org_member : String → String → OrgStore db → OrgResult × OrgStore db
  remove_org_member org account s = elim (find_member db org account s) [
    | none ↦ (refused not_found, s)
    | some row ↦
        if str_eq row.role "owner" && leb (count_owners db org s) 1
        then (refused last_owner, s)
        else removed row s
  ]

  unfoldable pub update_org_member_role :
      String → String → String → OrgStore db → OrgResult × OrgStore db
  update_org_member_role org account role s = elim (find_member db org account s) [
    | none ↦ (refused not_found, s)
    | some row ↦
        if (str_eq row.role "owner" && not (str_eq role "owner")) && leb (count_owners db org s) 1
        then (refused last_owner, s)
        else (done, save_role row role s)
  ]

  pub get_org_membership : String → String → OrgStore db → Option String
  get_org_membership org account s = elim (find_member db org account s) [
    | none ↦ none
    | some row ↦ some row.role
  ]
