-- ===== src/Orgs/Invitations.antt =====
-- organizations.ts: invitations, and the removal of an account from every organisation.
use adonis_authkit.Prelude.{
  ℕ, ◌+◌, ◌*◌, Bool, true, false, not, ◌&&◌, Option, none, some, List, [], ◌∷◌, if◌then◌else◌,
  first, keep, length, str_eq, String, is_some,
}
use adonis_authkit.Orgs.{
  InvitationRow, MemberRow, OrgDb, OrgStore, OrgInvitation, to_org_invitation, InvitationInput,
  at_ms, past, OrgResult, done, refused, not_found, expired, email_mismatch, find_member,
}

abbrev pub hour_ms : ℕ
hour_ms = 3600000

abbrev pub has_invitation_id : String → InvitationRow → Bool
has_invitation_id id r = str_eq r.id id

abbrev pub pending_for : String → InvitationRow → Bool
pending_for email r = str_eq r.email email && not (is_some r.accepted_at)

abbrev pub accepted : ℕ → InvitationRow → InvitationRow
accepted now r = record r { accepted_at = some now }

-- The membership that an accepted invitation gives.
abbrev pub joining : InvitationRow → String → String → ℕ → MemberRow
joining inv account member_id now = record {
  id = member_id;
  organization_id = inv.organization_id;
  account_id = account;
  role = inv.role;
  created_at = now;
}

abbrev pub found_invitation : Option InvitationRow → Option OrgInvitation
found_invitation none = none
found_invitation (some r) = some (to_org_invitation r)

-- `address_of` is `findAccountEmail`, `lower` is `toLowerCase`, and `sha256` hashes a token.
module _ (db : OrgDb) (lower sha256 : String → String) (address_of : String → Option String) where
  unfoldable pub create_org_invitation :
      InvitationInput
      → String
      → String
      → ℕ
      → OrgStore db
      → Option (OrgInvitation × String) × OrgStore db
  create_org_invitation input invitation_id token now s =
      let row : InvitationRow = record {
        id = invitation_id;
        organization_id = input.organization_id;
        email = input.email;
        role = input.role;
        token_hash = sha256 token;
        invited_by = input.invited_by;
        expires_at = at_ms (now + input.ttl_hours * hour_ms);
        accepted_at = none;
        created_at = now;
      } in
      elim (db.invitations.insert row s.invitations) [
        | none ↦ (none, s)
        | some t ↦ (some (to_org_invitation row, token), record s { invitations = t })
      ]

  unfoldable pub find_invitation_by_token_hash : String → OrgStore db → Option OrgInvitation
  find_invitation_by_token_hash hash s =
      found_invitation (first (λ r. str_eq r.token_hash hash) (db.invitations.rows s.invitations))

  unfoldable pub invitations_from : List InvitationRow → List OrgInvitation
  invitations_from [] = []
  invitations_from (r ∷ rs) = to_org_invitation r ∷ invitations_from rs

  unfoldable pub list_pending_invitations_for_org : String → OrgStore db → List OrgInvitation
  unfolding invitations_from
  list_pending_invitations_for_org org s = invitations_from (
      keep (λ r. str_eq r.organization_id org && not (is_some r.accepted_at))
        (db.invitations.rows s.invitations))

  unfoldable pub list_pending_invitations_for_email : String → OrgStore db → List OrgInvitation
  unfolding invitations_from
  list_pending_invitations_for_email email s =
      invitations_from (keep (pending_for email) (db.invitations.rows s.invitations))

  -- An absent or an empty address never matches.
  unfoldable pub matches_address : String → InvitationRow → Bool
  matches_address account inv = elim (address_of account) [
    | none ↦ false
    | some email ↦ not (str_eq email "") && str_eq (lower email) (lower inv.email)
  ]

  abbrev mark_accepted : InvitationRow → ℕ → OrgStore db → OrgStore db
  mark_accepted inv now s = record s {
    invitations = db.invitations.update (has_invitation_id inv.id) (accepted now) s.invitations;
  }

  unfoldable pub join :
      InvitationRow → String → String → ℕ → OrgStore db → Option OrgResult × OrgStore db
  join inv account member_id now s = elim (find_member db inv.organization_id account s) [
    | some existing ↦ (some done, mark_accepted inv now s)
    | none ↦ elim (db.members.insert (joining inv account member_id now) s.members) [
      | none ↦ (none, s)
      | some members ↦ (some done, mark_accepted inv now (record s { members = members }))
    ]
  ]

  -- `none` is a throw of the insert.
  unfoldable pub accept_invitation :
      String → String → String → ℕ → OrgStore db → Option OrgResult × OrgStore db
  unfolding matches_address join
  accept_invitation invitation_id account member_id now s =
      elim (first (has_invitation_id invitation_id) (db.invitations.rows s.invitations)) [
        | none ↦ (some (refused not_found), s)
        | some inv ↦
            if past inv.expires_at now
            then (some (refused expired), s)
            else (if matches_address account inv
                then join inv account member_id now s
                else (some (refused email_mismatch), s))
      ]

  -- An invitation is found by its id and the organisation, never by its id alone.
  unfoldable pub revoke_invitation : String → String → OrgStore db → Bool × OrgStore db
  revoke_invitation org invitation_id s =
      elim (first (λ r. str_eq r.id invitation_id && str_eq r.organization_id org)
        (db.invitations.rows s.invitations)) [
          | none ↦ (false, s)
          | some inv ↦ (
            true,
            record s {
              invitations = db.invitations.delete (has_invitation_id inv.id) s.invitations;
            },
          )
        ]

  -- The two loops of `removeAccountFromAllOrgs`, over the rows that were read before them.
  unfoldable pub delete_members : List MemberRow → OrgStore db → OrgStore db
  delete_members [] s = s
  delete_members (m ∷ ms) s =
      delete_members ms (record s { members = db.members.delete (λ r. str_eq r.id m.id) s.members })

  unfoldable pub delete_invitations : List InvitationRow → OrgStore db → OrgStore db
  delete_invitations [] s = s
  delete_invitations (inv ∷ invs) s =
      delete_invitations invs
        (record s { invitations = db.invitations.delete (has_invitation_id inv.id) s.invitations })

  unfoldable pub invitations_to : Option String → OrgStore db → List InvitationRow
  invitations_to none s = []
  invitations_to (some email) s =
      if str_eq email "" then [] else keep (pending_for email) (db.invitations.rows s.invitations)

  -- How many memberships and how many invitations were deleted.
  unfoldable pub remove_account_from_all_orgs : String → OrgStore db → (ℕ × ℕ) × OrgStore db
  unfolding delete_members delete_invitations invitations_to
  remove_account_from_all_orgs account s =
      let memberships = keep (λ r. str_eq r.account_id account) (db.members.rows s.members) in
      let s' = delete_members memberships s in
      let invitations = invitations_to (address_of account) s' in
      ((length memberships, length invitations), delete_invitations invitations s')
