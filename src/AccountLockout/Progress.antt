-- ===== src/AccountLockout/Progress.antt =====
-- account_lockout.ts: how failures lead to a lock, over a limiter that answers.
use adonis_authkit.Prelude.{
  ℕ, zero, suc, ◌+◌, ◌==◌, ◌⊎◌, List, [], ◌∷◌, length, if◌then◌else◌, sym, ◌≤◌, ◌<◌, ◌≡◌, ◌↔◌, inl,
  inr, refl, Bool, true, false, Option, none, some, ltb, leb, str_eq, String, arith, Bool-cases, ap,
  lt→ltb, ltb→lt, ◌∙◌,
}
use native.Mathlib.Nat.{
  add-suc, suc-add, zero-add, add-zero, mul-le-mul_left, mul-one, pow-le-pow_right,
}
use adonis_authkit.Settings.{ResolvedLockout}
use adonis_authkit.Limiter.{Limiter, Works}
use adonis_authkit.AccountLockout.{
  LockoutKey, fail_key, lock_key, count_key, LockoutWorld, compute_lockout_sec, unlocked, is_locked,
  record_failure, count_failure, lock_account, clear_failures, at_most, audited,
}

not-ltb : (a b : ℕ) → b ≤ a → ltb a b ≡ false
not-ltb a b h = ground arith

at_most_mono : (m : ℕ) {a b : ℕ} → a ≤ b → at_most a m ≤ at_most b m
at_most_mono m {a} {b} h = ground arith

-- A lock never lasts longer than the maximum, the first one lasts the base time where that is
-- less, and each further lock lasts at least as long as the one before it.
pub compute_lockout_sec_bounds :
    (n : ℕ) (cfg : ResolvedLockout)
    → (compute_lockout_sec n cfg ≤ cfg.max_lockout_sec)
      × (compute_lockout_sec n cfg ≤ compute_lockout_sec (suc n) cfg)
      × (compute_lockout_sec 1 cfg ≡ at_most cfg.base_lockout_sec cfg.max_lockout_sec)
unfolding compute_lockout_sec
compute_lockout_sec_bounds n cfg = (
  ground arith,
  at_most_mono cfg.max_lockout_sec (
      mul-le-mul_left cfg.base_lockout_sec (pow-le-pow_right {n = 2} (omega arith) (ground arith))),
  rw mul-one refl,
)

-- The first lock is the shortest.
compute_lockout_sec-first :
    (n : ℕ) (cfg : ResolvedLockout) → compute_lockout_sec 1 cfg ≤ compute_lockout_sec (suc n) cfg
compute_lockout_sec-first zero cfg = omega arith
compute_lockout_sec-first (suc n) cfg =
    omega (arith, compute_lockout_sec-first n cfg, (compute_lockout_sec_bounds (suc n) cfg).1)

abbrev pub total : List ℕ → ℕ
total [] = 0
total (n ∷ ns) = n + total ns

module _ (l : Limiter LockoutKey) (w : Works LockoutKey l) (normalize : String → String)
    (cfg : ResolvedLockout) (email : String) (audit : Option (Option String))
    (named : str_eq (normalize email) "" ≡ false) (on : cfg.enabled ≡ true) where
  limiter-audited :
      (audit' : Option (Option String)) (key : String) (n seconds : ℕ)
      (s : LockoutWorld l true normalize)
      → (audited l true normalize audit' key n seconds s).limiter ≡ s.limiter
  limiter-audited none key n seconds s = refl
  limiter-audited (some ip) key n seconds s = refl

  abbrev pub World : Type 0
  World = LockoutWorld l true normalize

  abbrev pub fails : World → ℕ
  fails s = w.consumed (fail_key (normalize email)) s.limiter

  abbrev pub is_blocked : World → Bool
  is_blocked s = w.blocked (lock_key (normalize email)) s.limiter

  abbrev pub fail : World → World
  fail s = record_failure l true normalize cfg email audit s

  -- Some seconds later.
  abbrev pub later : ℕ → World → World
  later n s = record s { limiter = w.elapse n s.limiter }

  -- Failed logins, each after a wait.
  pub failures : List ℕ → World → World
  failures [] s = s
  failures (n ∷ waits) s = failures waits (fail (later n s))

  -- The seconds left of the window in which failures count, and of the lock.
  abbrev pub window : World → ℕ
  window s = w.window_left (fail_key (normalize email)) s.limiter

  abbrev pub lock_left : World → ℕ
  lock_left s = w.remaining (lock_key (normalize email)) s.limiter

  pub is_locked_lem :
      (s : World) → (is_locked l true normalize cfg email s ≡ unlocked) ↔ (is_blocked s ≡ false)
  unfolding is_locked
  is_locked_lem s = elim (Bool-cases (is_blocked s)) [
    | inl shut ↦
        rw (is_locked, named, on, w.is_blocked_lem, shut, w.available_in_lem) ((λ e. cc), (λ e. cc))
    | inr open_ ↦ rw (is_locked, named, on, w.is_blocked_lem, open_) ((λ e. refl), (λ e. refl))
  ]

  -- A failure below the limit is counted and recorded nowhere else.
  pub fail_below :
      (s : World)
      → is_blocked s ≡ false
      → suc (fails s) < cfg.max_attempts
      → (fails (fail s) ≡ suc (fails s))
        × (is_blocked (fail s) ≡ false)
        × (window (fail s) ≡ (if fails s == 0 then cfg.window_sec else window s))
        × ((fail s).audit ≡ s.audit)
  unfolding record_failure
  fail_below s open_ below =
      rw
        (
          record_failure,
          named,
          on,
          w.is_blocked_lem,
          open_,
          count_failure,
          w.increment_lem,
          lt→ltb _ _ below,
        )
        (
          w.consumed_increment _ _ _,
          w.blocked_increment _ _ _ _ ∙ open_,
          w.window_left_increment _ _ _,
          refl,
        )

  -- The failure that reaches the limit blocks the account, for the time of one of its locks.
  pub fail_reach :
      (s : World)
      → is_blocked s ≡ false
      → cfg.max_attempts ≤ suc (fails s)
      → (is_blocked (fail s) ≡ true)
        × (n : ℕ) × (lock_left (fail s) ≡ compute_lockout_sec (suc n) cfg)
  unfolding record_failure compute_lockout_sec
  fail_reach s open_ reached =
      rw
        (
          record_failure,
          named,
          on,
          w.is_blocked_lem,
          open_,
          count_failure,
          w.increment_lem,
          not-ltb _ _ reached,
          lock_account,
          w.increment_lem,
          w.block_lem,
          w.delete_lem,
        )
        (
          ap (w.blocked (lock_key (normalize email))) (limiter-audited audit _ _ _ _)
              ∙ w.blocked_delete_other _ _ _ (λ e. cc)
              ∙ w.blocked_block _ _ _,
          _,
          ap (w.remaining (lock_key (normalize email))) (limiter-audited audit _ _ _ _)
              ∙ w.remaining_delete_other _ _ _ (λ e. cc)
              ∙ w.remaining_block _ _ _,
        )

  fail_locked : (s : World) → is_blocked s ≡ true → fail s ≡ s
  unfolding record_failure
  fail_locked s shut = rw (record_failure, named, on, w.is_blocked_lem, shut) refl

  -- `n` failures are counted, and will be for more than `rest` seconds.
  pub record IsRunning (n rest : ℕ) (s : World) : Type 0 where
    pub counted : fails s ≡ n
    pub free : is_blocked s ≡ false
    pub lasts : 0 < n → rest < window s

  -- The account is locked, and will be for more than `rest` seconds.
  pub record IsShut (rest : ℕ) (s : World) : Type 0 where
    pub shut : is_blocked s ≡ true
    pub lasts : rest < lock_left s
    pub ends : lock_left s ≤ cfg.max_lockout_sec

  -- Where the account stands after `n` failures.
  abbrev pub Standing : ℕ → ℕ → World → Type 0
  Standing n rest s =
      ((n < cfg.max_attempts) × IsRunning n rest s) ⊎ ((cfg.max_attempts ≤ n) × IsShut rest s)

  later-IsRunning :
      (n k rest more : ℕ) (s : World)
      → n + rest ≤ more
      → IsRunning k more s
      → IsRunning k rest (later n s)
  later-IsRunning n k rest more s fits h = record {
    counted = w.consumed_elapse n _ _ ∙ still (fails s) (window s) h.counted h.lasts;
    free = w.blocked_elapse n _ _ ∙ rw (h.free) refl;
    lasts = λ some_. rw (w.window_left_elapse) (omega (arith, h.lasts some_));
  }
    where
      still : (c left : ℕ) → c ≡ k → (0 < k → more < left) → (if ltb n left then c else 0) ≡ k
      still c left same_ lasts = elim (Bool-cases (ltb 0 k)) [
        | inl some_ ↦ let lasts' = lasts (ltb→lt _ _ some_) in ground arith
        | inr none_ ↦ ground arith
      ]

  later-IsShut :
      (n rest more : ℕ) (s : World) → n + rest ≤ more → IsShut more s → IsShut rest (later n s)
  later-IsShut n rest more s fits h = record {
    shut =
        w.blocked_elapse n _ _ ∙ rw (h.shut, lt→ltb n (lock_left s) (omega (arith, h.lasts))) refl;
    lasts = rw (w.remaining_elapse) (omega (arith, h.lasts));
    ends = rw (w.remaining_elapse) (omega (arith, h.ends));
  }

  -- Failures within the window and within the first lock move the account along.
  pub fail-Standing :
      (n rest : ℕ) (s : World)
      → rest < cfg.window_sec
      → rest < compute_lockout_sec 1 cfg
      → Standing n rest s
      → Standing (suc n) rest (fail s)
  fail-Standing n rest s in_window in_lock (inl (below, h)) =
      elim (Bool-cases (leb cfg.max_attempts (suc n))) [
        | inl reached ↦
            let (shut, locks, left) = fail_reach s h.free (ground (arith, h.counted)) in
            inr (
              ground arith,
              record {
                shut = shut;
                lasts = omega (arith, left, compute_lockout_sec-first locks cfg);
                ends = omega (arith, left, (compute_lockout_sec_bounds (suc locks) cfg).0);
              },
            )
        | inr more ↦
            let (counted, free, left, _) = fail_below s h.free (ground (arith, h.counted)) in
            inl (
              ground arith,
              record {
                counted = counted ∙ ap suc h.counted;
                free = free;
                lasts = λ some_. rw (left) (opened (fails s) (window s) h.counted h.lasts);
              },
            )
      ]
    where
      opened :
          (c left : ℕ)
          → c ≡ n
          → (0 < n → rest < left)
          → rest < (if c == 0 then cfg.window_sec else left)
      opened zero left same_ lasts = in_window
      opened (suc c) left same_ lasts = let more = lasts (omega arith) in ground (arith, more)
  fail-Standing n rest s in_window in_lock (inr (reached, h)) =
      inr (omega arith, rw (fail_locked s h.shut) h)

  pub later-Standing :
      (n d rest more : ℕ) (s : World)
      → d + rest ≤ more
      → Standing n more s
      → Standing n rest (later d s)
  later-Standing n d rest more s fits (inl (below, h)) =
      inl (below, later-IsRunning d n rest more s fits h)
  later-Standing n d rest more s fits (inr (reached, h)) =
      inr (reached, later-IsShut d rest more s fits h)

  failures-Standing :
      (waits : List ℕ) (n more : ℕ) (s : World)
      → more < cfg.window_sec
      → more < compute_lockout_sec 1 cfg
      → total waits ≤ more
      → Standing n more s
      → Standing (length waits + n) 0 (failures waits s)
  unfolding failures
  failures-Standing [] n more s in_window in_lock fits h = rw zero-add (later_zero h)
    where
      later_zero : Standing n more s → Standing n 0 s
      later_zero (inl (below, r)) = inl (
        below,
        record {
          counted = r.counted;
          free = r.free;
          lasts = λ some_. omega (arith, r.lasts some_);
        },
      )
      later_zero (inr (reached, r)) =
          inr (reached, record { shut = r.shut; lasts = omega (arith, r.lasts); ends = r.ends })
  failures-Standing (d ∷ waits) n more s in_window in_lock fits h =
      let after = later-Standing n d (total waits) more s fits h in
      rw (suc-add, ← add-suc)
        (failures-Standing waits (suc n) (total waits) (fail (later d s)) (omega arith)
          (omega arith) (omega arith)
          (fail-Standing n (total waits) (later d s) (omega arith) (omega arith) after))

  Standing-is_blocked :
      (n : ℕ) (s : World) → Standing n 0 s → (is_blocked s ≡ false) ↔ (n < cfg.max_attempts)
  Standing-is_blocked n s (inl (below, h)) = ((λ e. below), (λ e. h.free))
  Standing-is_blocked n s (inr (reached, h)) =
      ((λ e. absurd (cc (sym e ∙ h.shut))), (λ e. absurd (omega arith)))

  Standing-lapses :
      (n d : ℕ) (s : World)
      → Standing n 0 s
      → cfg.max_lockout_sec ≤ d
      → is_blocked (later d s) ≡ false
  Standing-lapses n d s (inl (below, h)) long = w.blocked_elapse d _ _ ∙ rw (h.free) refl
  Standing-lapses n d s (inr (reached, h)) long =
      w.blocked_elapse d _ _ ∙ rw (h.shut, not-ltb d (lock_left s) (omega (arith, h.ends))) refl

  -- With the lockout on, a limit of at least one, an address and a limiter that answers: after any
  -- number of failures, with waits before them that add up to less than the window of the failures
  -- and less than the first lock, from an account with none and no lock, login is refused exactly
  -- when that number has reached the limit. The lock is over when the longest lock has passed.
  pub failures-lock_iff :
      (waits : List ℕ) (d : ℕ) (s : World)
      → fails s ≡ 0
      → is_blocked s ≡ false
      → 0 < cfg.max_attempts
      → total waits < cfg.window_sec
      → total waits < compute_lockout_sec 1 cfg
      → cfg.max_lockout_sec ≤ d
      → let t = failures waits s in
        ((is_locked l true normalize cfg email t ≡ unlocked) ↔ (length waits < cfg.max_attempts))
        × (is_locked l true normalize cfg email (later d t) ≡ unlocked)
  failures-lock_iff waits d s none_yet open_ positive in_window in_lock long =
      let h : Standing (length waits + 0) 0 (failures waits s) =
        failures-Standing waits 0 (total waits) s in_window in_lock (omega arith) (
          inl (
            positive,
            record { counted = none_yet; free = open_; lasts = λ some_. absurd (omega arith) },
          )) in
      let blocked = Standing-is_blocked _ (failures waits s) h in
      let locked_ = is_locked_lem (failures waits s) in
      (
        (
          λ free. rw (add-zero) at (blocked.0 (locked_.0 free)),
          λ below. locked_.1 (blocked.1 (rw (add-zero) below)),
        ),
        (is_locked_lem (later d (failures waits s))).1
            (Standing-lapses _ d (failures waits s) h long),
      )

  -- With the lockout on, an address and a limiter that answers, clearing forgets the failures and
  -- lifts the lock, and keeps the number of locks that the backoff grows with.
  pub clear_failures_lem :
      (s : World)
      → let t = clear_failures l true normalize cfg email s in
        (fails t ≡ 0)
        × (is_blocked t ≡ false)
        × (w.consumed (count_key (normalize email)) t.limiter
            ≡ w.consumed (count_key (normalize email)) s.limiter)
  unfolding clear_failures
  clear_failures_lem s =
      rw (named, on, clear_failures, w.delete_lem, w.delete_lem)
        (
          w.consumed_delete_other _ _ _ (λ e. cc) ∙ w.consumed_delete _ _,
          w.blocked_delete _ _,
          w.consumed_delete_other _ _ _ (λ e. cc) ∙ w.consumed_delete_other _ _ _ (λ e. cc),
        )
