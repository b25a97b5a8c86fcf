-- ===== src/LoginAttempt/BruteForce.antt =====
-- login_attempt.ts with account_lockout.ts: guessing the password of an account.
use adonis_authkit.Prelude.{
  ℕ, suc, ◌+◌, ◌≤◌, ◌<◌, ◌≡◌, ◌↔◌, inl, inr, refl, Bool, true, false, none, some, List, [], ◌∷◌,
  String, arith, length, str_eq, ◌∙◌, ap, sym, subst,
}
use native.Mathlib.Nat.{add-zero, add-suc, suc-add}
use adonis_authkit.Audit.{login_failure}
use adonis_authkit.Limiter.{Limiter, Works}
use adonis_authkit.AccountLockout.{
  LockoutKey, LockState, LockState-cases, is_locked, compute_lockout_sec,
}
use adonis_authkit.AccountLockout.Progress
use adonis_authkit.AccountStatus.{LoginConfig}
use adonis_authkit.LoginAttempt.{
  World, record_event, PasswordLoginInput, locked, effective_lockout, attempt_password_login,
  wrong_password,
}

abbrev pub with_password : String → PasswordLoginInput → PasswordLoginInput
with_password p input = record input { password = p }

module _ (l : Limiter LockoutKey) (w : Works LockoutKey l) (normalize : String → String)
    (cfg : LoginConfig) (now : ℕ) (input : PasswordLoginInput)
    (named : str_eq (normalize input.email) "" ≡ false)
    (on : (effective_lockout cfg input.settings).enabled ≡ true) where
  -- Some seconds later.
  abbrev pub later : ℕ → World l true normalize cfg now → World l true normalize cfg now
  later n s =
      Progress.later l w normalize (effective_lockout cfg input.settings) input.email
        (some input.ip) named on n s

  -- The world after a guess.
  abbrev guess : String → World l true normalize cfg now → World l true normalize cfg now
  guess p s = (attempt_password_login l true normalize cfg now (with_password p input) s).1

  -- The guesses, each after a wait, and the world after them.
  pub guesses : List (ℕ × String) → World l true normalize cfg now → World l true normalize cfg now
  guesses [] s = s
  guesses ((n, p) ∷ gs) s = guesses gs (guess p (later n s))

  abbrev pub AllWrong : List (ℕ × String) → Type 0
  AllWrong [] = Unit {0}
  AllWrong ((n, p) ∷ gs) = (cfg.store.verify_credentials input.email p ≡ none) × AllWrong gs

  abbrev pub waited : List (ℕ × String) → ℕ
  waited [] = 0
  waited ((n, p) ∷ gs) = n + waited gs

  abbrev pub window : World l true normalize cfg now → ℕ
  window s =
      Progress.window l w normalize (effective_lockout cfg input.settings) input.email
        (some input.ip) named on s

  abbrev Standing : ℕ → ℕ → World l true normalize cfg now → Type 0
  Standing n rest s =
      Progress.Standing l w normalize (effective_lockout cfg input.settings) input.email
        (some input.ip) named on n rest s

  abbrev limit : ℕ
  limit = (effective_lockout cfg input.settings).max_attempts

  abbrev pub failed : World l true normalize cfg now → ℕ
  failed s =
      Progress.fails l w normalize (effective_lockout cfg input.settings) input.email
        (some input.ip) named on s

  abbrev pub shut : World l true normalize cfg now → Bool
  shut s =
      Progress.is_blocked l w normalize (effective_lockout cfg input.settings) input.email
        (some input.ip) named on s

  locked_lem :
      (s : World l true normalize cfg now)
      → (is_locked l true normalize (effective_lockout cfg input.settings) input.email s
          ≡ LockState.unlocked)
        ↔ (shut s ≡ false)
  locked_lem s =
      Progress.is_locked_lem l w normalize (effective_lockout cfg input.settings) input.email
        (some input.ip) named on s

  -- The world with the `login.failure` of a guess.
  abbrev recorded : String → World l true normalize cfg now → World l true normalize cfg now
  recorded p s =
      record_event l true normalize cfg now (login_failure input.email input.ip input.client_id) s

  guess_shut :
      (p : String) (s : World l true normalize cfg now)
      → shut s ≡ true
      → (n : ℕ) × (attempt_password_login l true normalize cfg now (with_password p input) s
          ≡ (some (locked n), s))
  unfolding attempt_password_login
  guess_shut p s closed =
      elim (LockState-cases
        (is_locked l true normalize (effective_lockout cfg input.settings) input.email s)) [
          | inr (n, e) ↦ (n, rw (attempt_password_login, e) refl)
          | inl free ↦ absurd (cc ((locked_lem s).0 free))
        ]

  guess_open :
      (p : String) (s : World l true normalize cfg now)
      → shut s ≡ false
      → cfg.store.verify_credentials input.email p ≡ none
      → (attempt_password_login l true normalize cfg now (with_password p input) s).1
        ≡ wrong_password l true normalize cfg now (with_password p input) s
  unfolding attempt_password_login
  guess_open p s free wrong = rw (attempt_password_login, (locked_lem s).1 free, wrong) refl

  recorded-Standing :
      (p : String) (n rest : ℕ) (s : World l true normalize cfg now)
      → Standing n rest s
      → Standing n rest (recorded p s)
  recorded-Standing p n rest s (inl (below, h)) =
      inl (below, record { counted = h.counted; free = h.free; lasts = h.lasts })
  recorded-Standing p n rest s (inr (reached, h)) =
      inr (reached, record { shut = h.shut; lasts = h.lasts; ends = h.ends })

  -- One wrong guess moves the account along, as a failure does, or is refused.
  guess-Standing :
      (p : String) (n rest : ℕ) (s : World l true normalize cfg now)
      → cfg.store.verify_credentials input.email p ≡ none
      → rest < (effective_lockout cfg input.settings).window_sec
      → rest < compute_lockout_sec 1 (effective_lockout cfg input.settings)
      → Standing n rest s
      → Standing (suc n) rest (guess p s)
  unfolding wrong_password
  guess-Standing p n rest s wrong in_window in_lock (inl (below, h)) =
      rw (guess_open p s h.free wrong) (
        Progress.fail-Standing l w normalize (effective_lockout cfg input.settings) input.email
          (some input.ip) named on n rest (recorded p s) in_window in_lock
          (recorded-Standing p n rest s (inl (below, h))))
  guess-Standing p n rest s wrong in_window in_lock (inr (reached, h)) =
      let (k, e) = guess_shut p s h.shut in
      subst (Standing (suc n) rest) (sym (ap (λ r. r.1) e)) (inr (omega arith, h))

  guesses-Standing :
      (gs : List (ℕ × String)) (n rest more : ℕ) (s : World l true normalize cfg now)
      → AllWrong gs
      → more < (effective_lockout cfg input.settings).window_sec
      → more < compute_lockout_sec 1 (effective_lockout cfg input.settings)
      → waited gs + rest ≡ more
      → Standing n more s
      → Standing (n + length gs) rest (guesses gs s)
  unfolding guesses
  guesses-Standing [] n rest more s wrong in_window in_lock same_ h =
      let same_rest : more ≡ rest = sym same_ ∙ omega arith in rw (add-zero) (rw (same_rest) at h)
  guesses-Standing ((d, p) ∷ gs) n rest more s (wrong, others) in_window in_lock same_ h =
      let after =
        Progress.later-Standing l w normalize (effective_lockout cfg input.settings) input.email
          (some input.ip) named on n d (waited gs + rest) more s (omega arith) h in
      rw (add-suc, ← suc-add)
        (guesses-Standing gs (suc n) rest (waited gs + rest) (guess p (later d s)) others
          (omega arith) (omega arith) refl
          (guess-Standing p n (waited gs + rest) (later d s) wrong (omega arith) (omega arith)
            after))

  -- Once as many wrong passwords as the limit allows have been tried, whatever they are, a further
  -- attempt is refused without a look at the password, the right one included, and changes nothing.
  -- All of this takes less time than the window in which failures count, what is left of it where
  -- some are counted already, and the first lock. The lockout is on, the limiter answers, and the
  -- failures start below the limit on an account that is not locked.
  pub guesses-locked :
      (gs : List (ℕ × String)) (d : ℕ) (p : String) (s : World l true normalize cfg now)
      → AllWrong gs
      → shut s ≡ false
      → failed s < limit
      → limit ≤ failed s + length gs
      → (0 < failed s → waited gs + d < window s)
      → waited gs + d < (effective_lockout cfg input.settings).window_sec
      → waited gs + d < compute_lockout_sec 1 (effective_lockout cfg input.settings)
      → let t = later d (guesses gs s) in
        (n : ℕ) × (attempt_password_login l true normalize cfg now (with_password p input) t
          ≡ (some (locked n), t))
  guesses-locked gs d p s wrong free below reached lasts in_window in_lock =
      let h =
        guesses-Standing gs (failed s) d (waited gs + d) s wrong in_window in_lock refl
          (inl (below, record { counted = refl; free = free; lasts = lasts })) in
      let after =
        Progress.later-Standing l w normalize (effective_lockout cfg input.settings) input.email
          (some input.ip) named on (failed s + length gs) d 0 d (guesses gs s) (omega arith) h in
      guess_shut p (later d (guesses gs s)) (closed after)
    where
      closed :
          {t : World l true normalize cfg now} → Standing (failed s + length gs) 0 t → shut t ≡ true
      closed (inl (early, r)) = absurd (omega arith)
      closed (inr (late, r)) = r.shut
