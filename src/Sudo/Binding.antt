-- ===== src/Sudo/Binding.antt =====
-- sudo_mode.ts, impersonation_session.ts: the confirmation of an identity is bound to the account
-- that made it, whatever happens to the session in between.
use adonis_authkit.Prelude.{
  ℕ, ◌+◌, ◌*◌, ◌≤◌, ◌≡◌, ◌≢◌, ◌⊎◌, inl, refl, true, Option, none, some, List, [], ◌∷◌, String,
  eq_iff, arith, ap, sym, &&-eq-true,
}
use adonis_authkit.Sudo.{
  Session, non_empty, bound_to, within_grace, mark_sudo, is_sudo_active, Exchange, Refresh, started,
  start_impersonation, stop_impersonation,
}

-- What can happen to a session. `switch` is any other code that changes the account, such as a
-- login or a logout.
pub data Event : Type 0 where
  mark : ℕ → Event
  switch : Option String → Event
  start : String → String → Event
  stop : String → Event

-- Some confirmation in the history was made by `a` at `t`.
abbrev pub Recorded : String → ℕ → List (String × ℕ) → Type 0
Recorded a t [] = ⊥
Recorded a t ((b, u) ∷ ms) = ((b ≡ a) × (u ≡ t)) ⊎ Recorded a t ms

abbrev recorded_for : Option String → ℕ → List (String × ℕ) → List (String × ℕ)
recorded_for none now hist = hist
recorded_for (some a) now hist = (a, now) ∷ hist

-- The session's claim about itself is backed by the history.
pub record IsBacked (s : Session) (hist : List (String × ℕ)) : Type 0 where
  pub backed :
      (a : String) (t : ℕ)
      → non_empty s.sudo_account ≡ some a
      → s.sudo_at ≡ some t
      → Recorded a t hist

non_empty_idem :
    (o : Option String) {a : String} → non_empty (non_empty o) ≡ some a → non_empty o ≡ some a
non_empty_idem none e = e
non_empty_idem (some s) e = ground arith

non_empty-eq-some : (o : Option String) {a : String} → non_empty o ≡ some a → o ≡ some a
non_empty-eq-some none e = e
non_empty-eq-some (some s) e = ground arith

bound_to-parts :
    (o c : Option String) → bound_to o c ≡ true → (a : String) × (o ≡ some a) × (c ≡ some a)
unfolding bound_to
bound_to-parts none c e = absurd (cc e)
bound_to-parts (some a) none e = absurd (cc e)
bound_to-parts (some a) (some b) e = (a, refl, ap some (sym ((eq_iff a b).0 e)))

within_grace-parts :
    (at_ms : Option ℕ) (grace_minutes now : ℕ)
    → within_grace at_ms grace_minutes now ≡ true
    → (t : ℕ) × (at_ms ≡ some t) × (now ≤ t + grace_minutes * 60 * 1000)
unfolding within_grace
within_grace-parts none grace_minutes now e = absurd (cc e)
within_grace-parts (some t) grace_minutes now e = (t, refl, ground arith)

IsBacked-mark :
    (s : Session) (hist : List (String × ℕ)) (now : ℕ)
    → IsBacked (mark_sudo now s) (recorded_for (non_empty s.account) now hist)
unfolding mark_sudo
IsBacked-mark s hist now = record {
  backed = λ a t e at_t. let owner = non_empty_idem s.account e in rw owner (inl (refl, cc));
}

module _ (exchange : String → String → Exchange) (refresh : String → Refresh) where
  -- An impersonation that starts or fails leaves the mark alone.
  start-mark :
      (new_id target : String) (s : Session)
      → let t = (start_impersonation exchange refresh new_id target s).0 in
        (t.sudo_at ≡ s.sudo_at) × (t.sudo_account ≡ s.sudo_account)
  unfolding start_impersonation
  start-mark new_id target s = ground arith

  stop-mark :
      (new_id : String) (s : Session)
      → let t = stop_impersonation new_id s in
        (t.sudo_at ≡ s.sudo_at) × (t.sudo_account ≡ s.sudo_account)
  unfolding stop_impersonation
  stop-mark new_id s = ground arith

  unfoldable pub step : Event → Session × List (String × ℕ) → Session × List (String × ℕ)
  step (mark now) (s, hist) = (mark_sudo now s, recorded_for (non_empty s.account) now hist)
  step (switch account) (s, hist) = (record s { account = account }, hist)
  step (start new_id target) (s, hist) =
      ((start_impersonation exchange refresh new_id target s).0, hist)
  step (stop new_id) (s, hist) = (stop_impersonation new_id s, hist)

  unfoldable pub run : List Event → Session × List (String × ℕ) → Session × List (String × ℕ)
  run [] state = state
  run (e ∷ es) state = run es (step e state)

  IsBacked-step :
      (e : Event) (s : Session) (hist : List (String × ℕ))
      → IsBacked s hist
      → let t = step e (s, hist) in IsBacked t.0 t.1
  unfolding step
  IsBacked-step (mark now) s hist h = IsBacked-mark s hist now
  IsBacked-step (switch account) s hist h = record { backed = h.backed }
  IsBacked-step (start new_id target) s hist h =
      let (same_time, same_owner) = start-mark new_id target s in
      record { backed = λ a t e f. h.backed a t (rw same_owner at e) (rw same_time at f) }
  IsBacked-step (stop new_id) s hist h =
      let (same_time, same_owner) = stop-mark new_id s in
      record { backed = λ a t e f. h.backed a t (rw same_owner at e) (rw same_time at f) }

  IsBacked-run :
      (es : List Event) (s : Session) (hist : List (String × ℕ))
      → IsBacked s hist
      → let t = run es (s, hist) in IsBacked t.0 t.1
  unfolding run
  IsBacked-run [] s hist h = h
  IsBacked-run (e ∷ es) s hist h =
      let (s', hist') = step e (s, hist) in IsBacked-run es s' hist' (IsBacked-step e s hist h)

  -- The account that is current made the confirmation, within the window.
  pub record IsConfirmed (s : Session) (hist : List (String × ℕ)) (grace_minutes now : ℕ)
      : Type 0 where
    pub owner : String
    pub at_ms : ℕ
    pub current : s.account ≡ some owner
    pub recorded : Recorded owner at_ms hist
    pub in_time : now ≤ at_ms + grace_minutes * 60 * 1000

  active-IsConfirmed :
      (s : Session) (hist : List (String × ℕ)) (grace_minutes now : ℕ)
      → IsBacked s hist
      → is_sudo_active s grace_minutes now ≡ true
      → IsConfirmed s hist grace_minutes now
  unfolding is_sudo_active
  active-IsConfirmed s hist grace_minutes now h e =
      let (a, owned, current) = bound_to-parts _ _ (&&-eq-true _ _ e).0 in
      let (t, at_t, in_time) =
        within_grace-parts s.sudo_at grace_minutes now (&&-eq-true _ _ e).1 in
      record {
        owner = a;
        at_ms = t;
        current = non_empty-eq-some s.account current;
        recorded = h.backed a t owned at_t;
        in_time = in_time;
      }

  -- Sudo is active only if the account that is current confirmed its identity in this session,
  -- within the window: no sequence of logins, logouts and impersonations, failed ones included,
  -- carries a confirmation over to another account. The session starts with no mark.
  pub sudo_active-IsConfirmed :
      (s : Session) (es : List Event) (grace_minutes now : ℕ)
      → s.sudo_at ≡ none
      → is_sudo_active (run es (s, [])).0 grace_minutes now ≡ true
      → IsConfirmed (run es (s, [])).0 (run es (s, [])).1 grace_minutes now
  sudo_active-IsConfirmed s es grace_minutes now fresh e =
      active-IsConfirmed _ _ grace_minutes now
        (IsBacked-run es s [] (record { backed = λ a t owner at_t. cc })) e

  -- An impersonation that does not start leaves the identity: the account, the impersonator, the
  -- mark and the id of the session.
  pub start_impersonation-failed :
      (new_id target : String) (s : Session)
      → (start_impersonation exchange refresh new_id target s).1 ≢ started
      → let t = (start_impersonation exchange refresh new_id target s).0 in
        (t.account ≡ s.account)
        × (t.impersonator ≡ s.impersonator)
        × (t.session_id ≡ s.session_id)
        × (t.sudo_at ≡ s.sudo_at)
        × (t.sudo_account ≡ s.sudo_account)
  unfolding start_impersonation
  start_impersonation-failed new_id target s failed = ground arith

  -- An impersonation starts only for a session with an account, an access token and no
  -- impersonation; it acts as the target and remembers the account, and stopping it restores the
  -- account, ends the impersonation and keeps the mark of the account.
  pub stop-start :
      (new_id next_id target : String) (s : Session)
      → (start_impersonation exchange refresh new_id target s).1 ≡ started
      → let t = (start_impersonation exchange refresh new_id target s).0 in
        let u = stop_impersonation next_id t in
        (t.account ≡ some target)
        × (t.impersonator ≡ s.account)
        × (non_empty s.account ≢ none)
        × (non_empty s.admin_access_token ≢ none)
        × (non_empty s.impersonator ≡ none)
        × (u.account ≡ s.account)
        × (u.impersonator ≡ none)
        × (u.sudo_at ≡ s.sudo_at)
        × (u.sudo_account ≡ s.sudo_account)
  unfolding start_impersonation stop_impersonation
  stop-start new_id next_id target s e = ground arith
