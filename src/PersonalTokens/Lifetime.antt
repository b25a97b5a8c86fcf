-- ===== src/PersonalTokens/Lifetime.antt =====
-- lucid_pat_store.ts: from the issue of a token to its end.
use adonis_authkit.Prelude.{
  ℕ, ◌≤◌, ◌≡◌, refl, sym, ap, Bool, true, not, ◌&&◌, Option, none, some, List, [], ◌∷◌, Text,
  same_refl, String, eq_refl, first, keep, count, count-first, if◌then◌else◌, arith, Option-cases,
  Bool-cases, inl, inr,
}
use adonis_authkit.Db.{Table}
use adonis_authkit.Db.Counting.{count-keep-split}
use adonis_authkit.Db.Finding.{first-append-here, first-count_zero, first-amend-kept}
use adonis_authkit.PersonalTokens.{
  PatRow, IssuePatInput, generate_pat_token, deadline, past, seconds, pat_of, has_pat_id, new_pat,
  issue, is_own, revoke, has_hash, find_active_by_token,
}

abbrev pair_or {ℓ} : {A : Type ℓ} → A → Option A → A
pair_or fallback none = fallback
pair_or fallback (some a) = a

module _ (db : Table PatRow) (sha256 : Text → Text) (plus_days : ℕ → ℕ → ℕ) where
  abbrev found_by : Text → db.State → Option PatRow
  found_by token s = first (has_hash db sha256 plus_days token) (db.rows s)

  find_active_by_token-answer :
      (token : Text) (later : ℕ) (s : db.State) {row : PatRow}
      → found_by token s ≡ some row
      → (find_active_by_token db sha256 plus_days token later s).0
        ≡ (if past row.expires_at later then none else some (pat_of row))
  unfolding find_active_by_token
  find_active_by_token-answer token later s {row} found =
      elim (Bool-cases (past row.expires_at later)) [
        | inl late ↦ rw (find_active_by_token, found, late) refl
        | inr in_time ↦ rw (find_active_by_token, found, in_time) refl
      ]

  -- A row as it was issued, whenever it was used last.
  abbrev used_at : PatRow → Option ℕ → PatRow
  used_at row at = record row { last_used_at = at }

  -- A use records its time and changes nothing else of the row.
  found_by-find_active_by_token :
      (token : Text) (used : ℕ) (s : db.State) {row : PatRow}
      → found_by token s ≡ some row
      → (at : Option ℕ) × (found_by token (find_active_by_token db sha256 plus_days token used s).1
          ≡ some (used_at row at))
  unfolding find_active_by_token
  found_by-find_active_by_token token used s {row} found =
      elim (Bool-cases (past row.expires_at used)) [
        | inl late ↦
            let set : (find_active_by_token db sha256 plus_days token used s).1 ≡ s =
              rw (find_active_by_token, found, late) refl in
            (row.last_used_at, rw (set) found)
        | inr in_time ↦
            let t = db.update (has_pat_id row.id) (λ r. record r { last_used_at = some used }) s in
            let there : found_by token t ≡ some (record row { last_used_at = some used }) =
              rw (db.rows_update) (
                first-amend-kept (has_hash db sha256 plus_days token) (has_pat_id row.id)
                  (λ r. record r { last_used_at = some used }) (λ x. refl) (db.rows s) found
                  (eq_refl row.id)) in
            let set : (find_active_by_token db sha256 plus_days token used s).1 ≡ t =
              rw (find_active_by_token, found, in_time) refl in
            (some used, rw (set) there)
      ]

  -- The store after the token was presented at these times, one after the other.
  pub uses : Text → List ℕ → db.State → db.State
  uses token [] s = s
  uses token (at ∷ ats) s = uses token ats (find_active_by_token db sha256 plus_days token at s).1

  found_by-uses :
      (token : Text) (ats : List ℕ) (s : db.State) {row : PatRow}
      → found_by token s ≡ some row
      → (at : Option ℕ) × (found_by token (uses token ats s) ≡ some (used_at row at))
  unfolding uses
  found_by-uses token [] s {row} found = (row.last_used_at, found)
  found_by-uses token (at ∷ ats) s {row} found =
      let (last, there) = found_by-find_active_by_token token at s {row = row} found in
      found_by-uses token ats _ {row = used_at row last} there

  -- Uses change nothing that the answer depends on.
  find_active_by_token-uses :
      (token : Text) (ats : List ℕ) (later : ℕ) (s : db.State) {row : PatRow}
      → found_by token s ≡ some row
      → (find_active_by_token db sha256 plus_days token later (uses token ats s)).0
        ≡ (if past row.expires_at later then none else some (pat_of row))
  find_active_by_token-uses token ats later s {row} found =
      let (last, there) = found_by-uses token ats s {row = row} found in
      find_active_by_token-answer token later (uses token ats s) {row = used_at row last} there

  -- A token that no one has is, once issued, the token of its account with what was granted, until
  -- its deadline has passed, however often and at whatever times it is presented in between.
  pub issue-find_active_by_token :
      (id : String) (input : IssuePatInput) (random : Text) (now later : ℕ) (ats : List ℕ)
      (s t : db.State) (issued : Text × PatRow)
      → first (has_hash db sha256 plus_days (generate_pat_token random)) (db.rows s) ≡ none
      → issue db sha256 plus_days id input random now s ≡ some (issued, t)
      → let token = generate_pat_token random in
        let u = uses token ats t in
        (issued.0 ≡ token)
        × ((find_active_by_token db sha256 plus_days token later u).0 ≡ (
            if past (deadline plus_days input.expires_in_days now) later
            then none
            else some (record {
              account_id = input.account_id;
              scopes = input.scopes;
              audience = input.audience;
              exp = seconds (deadline plus_days input.expires_in_days now);
            })))
  unfolding issue find_active_by_token
  issue-find_active_by_token id input random now later ats s t issued unknown e =
      let token = generate_pat_token random in
      let row = new_pat db sha256 plus_days id input token now in
      elim (Option-cases (db.insert row s)) [
        | inl threw ↦ absurd (cc (rw (issue, threw) at e))
        | inr (v, inserted) ↦
            let out : some ((token, row), v) ≡ some (issued, t) = rw (issue, inserted) at e in
            let same_ : (((token, row), v) ≡ (issued, t)) = ap (pair_or ((token, row), v)) out in
            let there : found_by token v ≡ some row = rw (db.rows_insert row s inserted) (
              first-append-here (has_hash db sha256 plus_days token) (db.rows s) row unknown
                (same_refl (sha256 token))) in
            (
              sym (ap (λ p. p.0.0) same_),
              rw (← ap (λ p. p.1) same_)
                  (find_active_by_token-uses token ats later v {row = row} there),
            )
      ]

  -- A token that its account revokes is no token any more, at any time.
  pub revoke-find_active_by_token :
      (account_id id : String) (token : Text) (later : ℕ) (s : db.State) (row : PatRow)
      → first (is_own db sha256 plus_days account_id id) (db.rows s) ≡ some row
      → row.token_hash ≡ sha256 token
      → count (has_hash db sha256 plus_days token) (db.rows s) ≤ 1
      → let (answer, t) = revoke db sha256 plus_days account_id id s in
        (answer ≡ true) × (find_active_by_token db sha256 plus_days token later t ≡ (none, t))
  unfolding revoke find_active_by_token
  revoke-find_active_by_token account_id id token later s row own hash once =
      let q = has_hash db sha256 plus_days token in
      let match : q row ≡ true = rw (hash) (same_refl (sha256 token)) in
      let gone : first q (keep (λ r. not (has_pat_id row.id r)) (db.rows s)) ≡ none =
        first-count_zero q (keep (λ r. not (has_pat_id row.id r)) (db.rows s)) (
          omega (
            arith,
            once,
            count-keep-split q (has_pat_id row.id) (db.rows s),
            count-first (is_own db sha256 plus_days account_id id) (λ r. q r && has_pat_id row.id r)
                (db.rows s) own (both match (eq_refl row.id)),
          )) in
      let set : revoke db sha256 plus_days account_id id s
          ≡ (true, db.delete (has_pat_id row.id) s) =
        rw (revoke, own) refl in
      rw (set) (refl, rw (find_active_by_token, db.rows_delete, gone) refl)
    where
      both : {a b : Bool} → a ≡ true → b ≡ true → (a && b) ≡ true
      both {a} {b} h k = rw (h, k) refl
