-- ===== src/Orgs/Lifecycle.antt =====
-- organizations.ts: what deletions leave behind, and when an invitation is accepted.
use adonis_authkit.Prelude.{
  ℕ, ◌<◌, ◌≡◌, ◌≢◌, inl, inr, refl, Bool, true, false, not, ◌&&◌, Option, some, List, [], ◌∷◌,
  arith, first, keep, count, length, count-append, first-holds, count-first, some_of, str_eq,
  String, eq_iff, eq_refl, Bool-cases, Option-cases, ap, sym, ◌∙◌,
}
use adonis_authkit.Db.Counting.{count-keep-none, count-keep-other}
use adonis_authkit.Orgs.{
  OrgRow, MemberRow, InvitationRow, OrgDb, OrgStore, done, past, in_org, is_member, find_org_row,
  find_member, delete_org,
}
use adonis_authkit.Orgs.Invitations.{
  has_invitation_id, accept_invitation, join, joining, matches_address, delete_members,
  delete_invitations, remove_account_from_all_orgs,
}

-- Deleting an organisation that exists leaves no membership and no invitation of it, and the
-- memberships of every other organisation are as many as before.
pub delete_org_purges :
    (db : OrgDb) (s : OrgStore db) (id : String) {row : OrgRow}
    → find_org_row db id s ≡ some row
    → let t = (delete_org db id s).1 in
      (count (in_org id) (db.members.rows t.members) ≡ 0)
      × (count (λ r. str_eq r.organization_id id) (db.invitations.rows t.invitations) ≡ 0)
      × ((o : String)
          → o ≢ id
          → count (in_org o) (db.members.rows t.members)
            ≡ count (in_org o) (db.members.rows s.members))
unfolding delete_org
delete_org_purges db s id {row} found =
    let of_org = λ (r : InvitationRow). str_eq r.organization_id id in
    rw
      (
        found,
        delete_org,
        db.members.rows_delete (in_org id) s.members,
        db.invitations.rows_delete (λ r. str_eq r.organization_id id) s.invitations,
      )
      (
        count-keep-none (in_org id) (in_org id) (db.members.rows s.members),
        count-keep-none of_org of_org (db.invitations.rows s.invitations),
        λ o other.
            count-keep-other (in_org o) (in_org id)
              (λ r e. ground (arith, eq_iff r.organization_id o, eq_iff r.organization_id id))
              (db.members.rows s.members),
      )

module _ (db : OrgDb) (lower sha256 : String → String) (address_of : String → Option String) where
  join-joins :
      (inv : InvitationRow) (account member_id : String) (now : ℕ) (s t : OrgStore db)
      → join db lower sha256 address_of inv account member_id now s ≡ (some done, t)
      → 0 < count (is_member inv.organization_id account) (db.members.rows t.members)
  unfolding join
  join-joins inv account member_id now s t e =
      elim (Option-cases (find_member db inv.organization_id account s)) [
        | inr (row, found) ↦
            let e' = rw (found, join) at e in
            let kept : s.members ≡ t.members = ap (λ r. r.1.members) e' in
            rw (← kept) (
              count-first _ _ (db.members.rows s.members) found (
                first-holds (is_member inv.organization_id account) (db.members.rows s.members)
                  found))
        | inl missing ↦
            elim (Option-cases (db.members.insert (joining inv account member_id now) s.members)) [
              | inl failed ↦ absurd (cc (rw (missing, failed, join) at e))
              | inr (members, inserted) ↦
                  let e' = rw (missing, inserted, join) at e in
                  let stored : members ≡ t.members = ap (λ r. r.1.members) e' in
                  rw (← stored, db.members.rows_insert _ s.members inserted, count-append)
                    (rw (eq_refl inv.organization_id, eq_refl account) (omega arith))
            ]
      ]

-- An invitation that is accepted is stored, not expired and addressed to the account, and the
-- account is a member of its organisation afterwards.
pub accept_invitation-joins :
    (db : OrgDb) (lower sha256 : String → String) (address_of : String → Option String)
    (invitation_id account member_id : String) (now : ℕ) (s t : OrgStore db)
    → accept_invitation db lower sha256 address_of invitation_id account member_id now s
      ≡ (some done, t)
    → (inv : InvitationRow) × (first
          (has_invitation_id invitation_id)
          (db.invitations.rows s.invitations)
        ≡ some inv)
      × (past inv.expires_at now ≡ false)
      × (matches_address db lower sha256 address_of account inv ≡ true)
      × (0 < count (is_member inv.organization_id account) (db.members.rows t.members))
unfolding accept_invitation
accept_invitation-joins db lower sha256 address_of invitation_id account member_id now s t e =
    elim (Option-cases
      (first (has_invitation_id invitation_id) (db.invitations.rows s.invitations))) [
        | inl missing ↦ absurd (cc (rw (missing, accept_invitation) at e))
        | inr (inv, found) ↦ elim (Bool-cases (past inv.expires_at now)) [
          | inl late ↦ absurd (cc (rw (found, accept_invitation, late) at e))
          | inr live ↦ elim (Bool-cases (matches_address db lower sha256 address_of account inv)) [
            | inr other ↦ absurd (cc (rw (found, accept_invitation, live, other) at e))
            | inl same_address ↦ (
              inv,
              found,
              live,
              same_address,
              join-joins db lower sha256 address_of inv account member_id now s t
                  (rw (found, accept_invitation, live, same_address) at e),
            )
          ]
        ]
      ]

-- The tests `WHERE id = …` of the loop over the read rows, joined.
abbrev has_id_in : List MemberRow → MemberRow → Bool
has_id_in ms r = some_of (λ m. str_eq r.id m.id) ms

keep-keep :
    (p q : MemberRow → Bool) (xs : List MemberRow) → keep p (keep q xs) ≡ keep (λ r. q r && p r) xs
keep-keep p q [] = refl
keep-keep p q (x ∷ xs) = ground (arith, keep-keep p q xs)

keep_congr :
    (p q : MemberRow → Bool)
    → ((r : MemberRow) → p r ≡ q r)
    → (xs : List MemberRow) → keep p xs ≡ keep q xs
keep_congr p q h [] = refl
keep_congr p q h (x ∷ xs) = ground (arith, h x, keep_congr p q h xs)

keep-all : (xs : List MemberRow) → keep (λ r. not false) xs ≡ xs
keep-all [] = refl
keep-all (x ∷ xs) = ap (λ ys. x ∷ ys) (keep-all xs)

abbrev pub of_account : String → MemberRow → Bool
of_account account r = str_eq r.account_id account

length-keep : (p : MemberRow → Bool) (xs : List MemberRow) → length (keep p xs) ≡ count p xs
length-keep p [] = refl
length-keep p (x ∷ xs) = ground (arith, length-keep p xs)

-- Every row of `xs` that passes `p` passes `q`.
abbrev Covers : (MemberRow → Bool) → (MemberRow → Bool) → List MemberRow → Type 0
Covers p q [] = Unit {0}
Covers p q (x ∷ xs) = (p x ≡ true → q x ≡ true) × Covers p q xs

count-covered :
    (p q : MemberRow → Bool) (xs : List MemberRow)
    → Covers p q xs
    → count p (keep (λ r. not (q r)) xs) ≡ 0
count-covered p q [] h = refl
count-covered p q (x ∷ xs) (h, hs) = ground (arith, count-covered p q xs hs, h)

Covers-mono :
    (p q q' : MemberRow → Bool)
    → ((r : MemberRow) → q r ≡ true → q' r ≡ true)
    → (xs : List MemberRow) → Covers p q xs
    → Covers p q' xs
Covers-mono p q q' m [] h = tt
Covers-mono p q q' m (x ∷ xs) (h, hs) = ((λ e. m x (h e)), Covers-mono p q q' m xs hs)

covers : (p : MemberRow → Bool) (xs : List MemberRow) → Covers p (has_id_in (keep p xs)) xs
covers p [] = tt
covers p (x ∷ xs) = (
  λ e. ground (arith, e, eq_refl x.id),
  Covers-mono p (has_id_in (keep p xs)) _ (λ r e. ground arith) xs (covers p xs),
)

module _ (db : OrgDb) (lower sha256 : String → String) (address_of : String → Option String) where
  delete_members-rows :
      (ms : List MemberRow) (s : OrgStore db)
      → db.members.rows (delete_members db lower sha256 address_of ms s).members
        ≡ keep (λ r. not (has_id_in ms r)) (db.members.rows s.members)
  unfolding delete_members
  delete_members-rows [] s = sym (keep-all (db.members.rows s.members))
  delete_members-rows (m ∷ ms) s =
      delete_members-rows ms _
      ∙ ap (keep (λ r. not (has_id_in ms r)))
          (db.members.rows_delete (λ r. str_eq r.id m.id) s.members)
      ∙ keep-keep _ _ (db.members.rows s.members)
      ∙ keep_congr (λ x. not (str_eq x.id m.id) && not (has_id_in ms x)) _ (λ r. ground arith)
          (db.members.rows s.members)

  delete_invitations-members :
      (invs : List InvitationRow) (s : OrgStore db)
      → (delete_invitations db lower sha256 address_of invs s).members ≡ s.members
  unfolding delete_invitations
  delete_invitations-members [] s = refl
  delete_invitations-members (inv ∷ invs) s = delete_invitations-members invs _

  -- The erasure of an account leaves it in no organisation, even where it was the only owner, and
  -- reports how many memberships it had.
  pub remove_account_from_all_orgs-purges :
      (account : String) (s : OrgStore db)
      → let result = remove_account_from_all_orgs db lower sha256 address_of account s in
        (count (of_account account) (db.members.rows result.1.members) ≡ 0)
        × (result.0.0 ≡ count (of_account account) (db.members.rows s.members))
  unfolding remove_account_from_all_orgs
  remove_account_from_all_orgs-purges account s = (
    rw
        (
          delete_invitations-members,
          delete_members-rows (keep (of_account account) (db.members.rows s.members)) s,
        )
        (count-covered (of_account account) _ (db.members.rows s.members)
          (covers (of_account account) (db.members.rows s.members))),
    length-keep (of_account account) (db.members.rows s.members),
  )
