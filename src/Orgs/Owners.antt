-- ===== src/Orgs/Owners.antt =====
-- organizations.ts: the owners of an organisation, through removals and changes of role.
use adonis_authkit.Prelude.{
  ℕ, ◌≤◌, ◌<◌, ◌≡◌, ◌≢◌, ◌↔◌, ◌⊎◌, inl, inr, refl, Bool, true, false, not, ◌&&◌, some, List, arith,
  first, count, keep, first-holds, count-first, leb, str_eq, String, eq_iff, eq_refl, ◌∙◌,
  Bool-cases, Option-cases, sym,
}
use adonis_authkit.Db.{amend}
use adonis_authkit.Db.Counting.{
  count-keep-split, count-and-le, count-keep-le-amend, count-le-amend, count_unique,
  count-amend-lost,
}
use adonis_authkit.Orgs.{
  MemberRow, OrgDb, OrgStore, refused, last_owner, is_owner_of, is_member, has_member_id, with_role,
  count_owners, find_member,
}
use adonis_authkit.Orgs.Members.{
  remove_org_member, update_org_member_role, save_role, add_org_member,
}

-- The primary key of the memberships.
pub record IsKeyed (rows : List MemberRow) : Type 0 where
  pub unique : (id : String) → count (has_member_id id) rows ≤ 1

-- A found row that is no owner of `org` may be deleted, and one of several owners may be.
delete-owners :
    (org : String) (f : MemberRow → Bool) (rows : List MemberRow) {row : MemberRow}
    → IsKeyed rows
    → first f rows ≡ some row
    → (is_owner_of org row ≡ false) ⊎ (1 < count (is_owner_of org) rows)
    → 0 < count (is_owner_of org) rows
    → 0 < count (is_owner_of org) (keep (λ r. not (has_member_id row.id r)) rows)
delete-owners org f rows {row} keyed found (inl other) some_owner = omega (
  arith,
  count-keep-split (is_owner_of org) (has_member_id row.id) rows,
  count_unique (is_owner_of org) (has_member_id row.id) f rows found (eq_refl row.id)
      (keyed.unique row.id) other,
)
delete-owners org f rows {row} keyed found (inr several) some_owner = omega (
  arith,
  count-keep-split (is_owner_of org) (has_member_id row.id) rows,
  count-and-le (is_owner_of org) (has_member_id row.id) rows,
  keyed.unique row.id,
)

-- The row that `find_member` gives belongs to the organisation that was asked for.
member_org :
    (db : OrgDb) (org account : String) (s : OrgStore db) {row : MemberRow}
    → find_member db org account s ≡ some row
    → row.organization_id ≡ org
member_org db org account s {row} e =
    (eq_iff row.organization_id org).0
      (ground (arith, first-holds (is_member org account) (db.members.rows s.members) {x = row}))

-- The guard of both operations leaves a row that is no owner, or one of several.
guarded :
    (db : OrgDb) (org o account : String) (s : OrgStore db) (row : MemberRow)
    → find_member db org account s ≡ some row
    → (str_eq row.role "owner" && leb (count_owners db org s) 1) ≡ false
    → (is_owner_of o row ≡ false) ⊎ (1 < count_owners db o s)
guarded db org o account s row e g = elim (Bool-cases (is_owner_of o row)) [
  | inr other ↦ inl other
  | inl owner ↦
      let same_org : o ≡ org =
        sym ((eq_iff row.organization_id o).0 (ground arith)) ∙ member_org db org account s e in
      inr (rw same_org (ground arith))
]

module _ (db : OrgDb) (s : OrgStore db) (keyed : IsKeyed (db.members.rows s.members))
    (o : String) where
  -- Removing a member, allowed or refused, leaves every organisation that has an owner with one,
  -- if the ids of the memberships are unique.
  pub remove_org_member-keeps_owner :
      (org account : String)
      → 0 < count_owners db o s
      → 0 < count_owners db o (remove_org_member db org account s).1
  unfolding remove_org_member
  remove_org_member-keeps_owner org account h = elim (Option-cases (find_member db org account s)) [
    | inl missing ↦ rw (missing, remove_org_member) h
    | inr (row, found) ↦
        elim (Bool-cases (str_eq row.role "owner" && leb (count_owners db org s) 1)) [
          | inl last ↦ rw (found, remove_org_member, last) h
          | inr free ↦
              rw
                (
                  found,
                  remove_org_member,
                  free,
                  db.members.rows_delete (has_member_id row.id) s.members,
                )
                (delete-owners o (is_member org account) (db.members.rows s.members) keyed found
                  (guarded db org o account s row found free) h)
        ]
  ]

  update_role-owner :
      (org account : String) (row : MemberRow) (role : String)
      → find_member db org account s ≡ some row
      → (str_eq row.role "owner" && not (str_eq role "owner")) ≡ false
        ⊎ leb (count_owners db org s) 1 ≡ false
      → 0 < count_owners db o s
      → 0 < count_owners db o (save_role db row role s)
  update_role-owner org account row role found safe h =
      rw (db.members.rows_update (has_member_id row.id) (with_role role) s.members)
        (by_role (Bool-cases (str_eq role "owner")))
    where
      by_role :
          (str_eq role "owner" ≡ true) ⊎ (str_eq role "owner" ≡ false)
          → 0
            < count
                (is_owner_of o)
                (amend (has_member_id row.id) (with_role role) (db.members.rows s.members))
      by_role (inl promoted) = omega (
        arith,
        count-le-amend (is_owner_of o) (has_member_id row.id) (with_role role)
            (λ (r : MemberRow) (e : is_owner_of o r ≡ true). ground arith)
            (db.members.rows s.members),
      )
      by_role (inr demoted) = omega (
        arith,
        count-keep-le-amend (is_owner_of o) (has_member_id row.id) (with_role role)
            (db.members.rows s.members),
        delete-owners o (is_member org account) (db.members.rows s.members) keyed found
            (guarded db org o account s row found (ground arith)) h,
      )

  -- A change of role, allowed or refused, leaves every organisation that has an owner with one,
  -- if the ids of the memberships are unique.
  pub update_org_member_role-keeps_owner :
      (org account role : String)
      → 0 < count_owners db o s
      → 0 < count_owners db o (update_org_member_role db org account role s).1
  unfolding update_org_member_role
  update_org_member_role-keeps_owner org account role h =
      elim (Option-cases (find_member db org account s)) [
        | inl missing ↦ rw (missing, update_org_member_role) h
        | inr (row, found) ↦
            elim (Bool-cases (
              (str_eq row.role "owner" && not (str_eq role "owner"))
              && leb (count_owners db org s) 1)) [
                | inl last ↦ rw (found, update_org_member_role, last) h
                | inr free ↦
                    rw (found, update_org_member_role, free)
                      (update_role-owner org account row role found (ground arith) h)
              ]
      ]

-- The member is the only owner of the organisation.
pub record IsLastOwner (db : OrgDb) (s : OrgStore db) (org account : String) : Type 0 where
  pub row : MemberRow
  pub found : find_member db org account s ≡ some row
  pub role : row.role ≡ "owner"
  pub alone : count_owners db org s ≤ 1

-- A removal is refused for `last_owner` exactly when the member is the only owner.
pub remove_org_member-last_owner_iff :
    (db : OrgDb) (s : OrgStore db) (org account : String)
    → ((remove_org_member db org account s).0 ≡ refused last_owner) ↔ IsLastOwner db s org account
unfolding remove_org_member
remove_org_member-last_owner_iff db s org account =
    elim (Option-cases (find_member db org account s)) [
      | inl missing ↦
          rw (missing, remove_org_member) ((λ e. cc), (λ l. absurd (cc (missing, l.found))))
      | inr (row, found) ↦
          rw (found, remove_org_member)
            (
              λ e. record {
                row = row;
                found = found;
                role = (eq_iff row.role "owner").0 (ground arith);
                alone = ground arith;
              },
              λ l.
                  let same_row : l.row ≡ row = cc (found, l.found) in
                  ground (arith, l.role, l.alone, eq_iff row.role "owner"),
            )
    ]

last_owner_row :
    (db : OrgDb) (org account : String) (s : OrgStore db) (l : IsLastOwner db s org account)
    → (is_owner_of org l.row && has_member_id l.row.id l.row) ≡ true
last_owner_row db org account s l =
    rw (member_org db org account s l.found, l.role, eq_refl org, eq_refl l.row.id) refl

-- An upsert that overwrites the role of the only owner with another role is carried out, and
-- leaves the organisation with no owner.
pub add_org_member-demotes_last_owner :
    (db : OrgDb) (s : OrgStore db) (org account role member_id : String) (now : ℕ)
    → IsLastOwner db s org account
    → role ≢ "owner"
    → count_owners db org (add_org_member db org account role member_id now s).1 ≡ 0
unfolding add_org_member
add_org_member-demotes_last_owner db s org account role member_id now l other =
    rw
      (
        l.found,
        add_org_member,
        db.members.rows_update (has_member_id l.row.id) (with_role role) s.members,
      )
      (omega (
        arith,
        count-amend-lost (is_owner_of org) (has_member_id l.row.id) (with_role role)
            (λ (r : MemberRow). ground (arith, eq_iff role "owner")) (db.members.rows s.members),
        count-keep-split (is_owner_of org) (has_member_id l.row.id) (db.members.rows s.members),
        count-first (is_member org account) (λ r. is_owner_of org r && has_member_id l.row.id r)
            (db.members.rows s.members) l.found (last_owner_row db org account s l),
        l.alone,
      ))
