-- ===== src/Orgs/Tests.antt =====
-- Runs over tables in memory, and the theorems about organisations at concrete rows.
use adonis_authkit.Prelude.{
  ◌<◌, ◌≡◌, ◌≢◌, ◌↔◌, refl, true, false, Option, none, some, [], ◌∷◌, String, str_eq, count, arith,
  if◌then◌else◌, first, eq_iff, Bool-cases, inl, inr, sym, ◌∙◌,
}
use adonis_authkit.Db.Memory.{memory}
use adonis_authkit.Orgs.{
  OrgRow, MemberRow, InvitationRow, at_ms, OrgDb, OrgStore, done, refused, last_owner, in_org,
  is_member, count_owners, delete_org, past,
}
use adonis_authkit.Orgs.Members.{remove_org_member, update_org_member_role, add_org_member}
use adonis_authkit.Orgs.Invitations.{
  has_invitation_id, accept_invitation, matches_address, remove_account_from_all_orgs,
}
use adonis_authkit.Orgs.Owners.{
  IsKeyed, remove_org_member-keeps_owner, update_org_member_role-keeps_owner, IsLastOwner,
  remove_org_member-last_owner_iff, add_org_member-demotes_last_owner,
}
use adonis_authkit.Orgs.Lifecycle.{
  delete_org_purges, accept_invitation-joins, remove_account_from_all_orgs-purges, of_account,
}

abbrev db : OrgDb
db = record {
  orgs = memory (λ a b. str_eq a.slug b.slug);
  members = memory (λ a b. is_member a.organization_id a.account_id b);
  invitations = memory (λ a b. str_eq a.token_hash b.token_hash);
}

abbrev member : String → String → String → MemberRow
member id account role = record {
  id = id;
  organization_id = "acme";
  account_id = account;
  role = role;
  created_at = 0;
}

abbrev acme : OrgRow
acme = record {
  id = "acme";
  name = "Acme";
  slug = "acme";
  logo_url = none;
  metadata = none;
  created_at = 0;
}

abbrev invitation : InvitationRow
invitation = record {
  id = "i1";
  organization_id = "acme";
  email = "Cleo@x.org";
  role = "member";
  token_hash = "h";
  invited_by = "ann";
  expires_at = at_ms 50;
  accepted_at = none;
  created_at = 0;
}

abbrev store : OrgStore db
store = record {
  orgs = acme ∷ [];
  members = member "m1" "ann" "owner" ∷ member "m2" "bob" "member" ∷ [];
  invitations = invitation ∷ [];
}

distinct : (a b : String) → str_eq a b ≡ false → a ≢ b
distinct a b h e = ground (arith, eq_iff a b)

store-IsKeyed : IsKeyed (db.members.rows store.members)
store-IsKeyed = record {
  unique = λ id. elim (Bool-cases (str_eq "m1" id)) [
    | inr a ↦ elim (Bool-cases (str_eq "m2" id)) [
      | inl b ↦ rw (a, b) (omega arith)
      | inr b ↦ rw (a, b) (omega arith)
    ]
    | inl a ↦ elim (Bool-cases (str_eq "m2" id)) [
      | inl b ↦ absurd (distinct "m1" "m2" refl ((eq_iff "m1" id).0 a ∙ sym ((eq_iff "m2" id).0 b)))
      | inr b ↦ rw (a, b) (omega arith)
    ]
  ];
}

ann-IsLastOwner : IsLastOwner db store "acme" "ann"
ann-IsLastOwner = record {
  row = member "m1" "ann" "owner";
  found = refl;
  role = refl;
  alone = omega arith;
}

abbrev lower : String → String
lower s = if str_eq s "Cleo@x.org" then "cleo@x.org" else s

abbrev address_of : String → Option String
address_of id = if str_eq id "cleo" then some "cleo@x.org" else none

remove_org_member-keeps_owner_example :
    0 < count_owners db "acme" (remove_org_member db "acme" "ann" store).1
remove_org_member-keeps_owner_example =
    remove_org_member-keeps_owner db store store-IsKeyed "acme" "acme" "ann" (omega arith)

update_org_member_role-keeps_owner_example :
    0 < count_owners db "acme" (update_org_member_role db "acme" "ann" "member" store).1
update_org_member_role-keeps_owner_example =
    update_org_member_role-keeps_owner db store store-IsKeyed "acme" "acme" "ann" "member"
      (omega arith)

remove_org_member-last_owner_iff_run :
    ((remove_org_member db "acme" "ann" store).0 ≡ refused last_owner)
    ↔ IsLastOwner db store "acme" "ann"
remove_org_member-last_owner_iff_run = remove_org_member-last_owner_iff db store "acme" "ann"

add_org_member-demotes_last_owner_example :
    count_owners db "acme" (add_org_member db "acme" "ann" "member" "m3" 7 store).1 ≡ 0
add_org_member-demotes_last_owner_example =
    add_org_member-demotes_last_owner db store "acme" "ann" "member" "m3" 7 ann-IsLastOwner
      (distinct "member" "owner" refl)

delete_org_purges_run :
    (count (in_org "acme") (db.members.rows (delete_org db "acme" store).1.members) ≡ 0)
    × (count
          (λ r. str_eq r.organization_id "acme")
          (db.invitations.rows (delete_org db "acme" store).1.invitations)
        ≡ 0)
    × ((o : String)
        → o ≢ "acme"
        → count (in_org o) (db.members.rows (delete_org db "acme" store).1.members)
          ≡ count (in_org o) (db.members.rows store.members))
delete_org_purges_run = delete_org_purges db store "acme" refl

accepted :
    accept_invitation db lower lower address_of "i1" "cleo" "m3" 7 store
    ≡ (some done, (accept_invitation db lower lower address_of "i1" "cleo" "m3" 7 store).1)
unfolding accept_invitation
accepted = refl

accept_invitation-joins_example :
    (inv : InvitationRow) × (first (has_invitation_id "i1") (db.invitations.rows store.invitations)
      ≡ some inv)
    × (past inv.expires_at 7 ≡ false)
    × (matches_address db lower lower address_of "cleo" inv ≡ true)
    × (0
        < count (is_member inv.organization_id "cleo") (
            db.members.rows
              (accept_invitation db lower lower address_of "i1" "cleo" "m3" 7 store).1.members))
accept_invitation-joins_example =
    accept_invitation-joins db lower lower address_of "i1" "cleo" "m3" 7 store
      (accept_invitation db lower lower address_of "i1" "cleo" "m3" 7 store).1 accepted

remove_account_from_all_orgs-purges_example :
    (count (of_account "ann") (
        db.members.rows
          (remove_account_from_all_orgs db lower lower address_of "ann" store).1.members)
      ≡ 0)
    × ((remove_account_from_all_orgs db lower lower address_of "ann" store).0.0
        ≡ count (of_account "ann") (db.members.rows store.members))
remove_account_from_all_orgs-purges_example =
    remove_account_from_all_orgs-purges db lower lower address_of "ann" store
