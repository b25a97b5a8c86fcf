-- ===== src/Limiter/Memory.antt =====
-- A limiter of functions from keys, for the runs at concrete inputs.
use adonis_authkit.Prelude.{
  ℕ, suc, ◌-◌, ◌==◌, ◌≡◌, ◌≢◌, refl, Bool, true, false, ◌&&◌, some, ltb, if◌then◌else◌,
}
use adonis_authkit.Limiter.{StoreOptions, Limiter, Works}

pub record Held (Key : Type 0) : Type 0 where
  pub counted : Key → ℕ
  pub shut : Key → Bool
  pub window : Key → ℕ
  pub left : Key → ℕ

abbrev pub update : {A B : Type 0} → (A → A → Bool) → A → B → (A → B) → A → B
update same k b f j = if same k j then b else f j

pub update-at :
    {A B : Type 0}
    → (same : A → A → Bool) (k : A) (b : B) (f : A → B) → same k k ≡ true
    → update same k b f k ≡ b
update-at same k b f e = rw e refl

pub update-other :
    {A B : Type 0}
    → (same : A → A → Bool) (k j : A) (b : B) (f : A → B) → same k j ≡ false
    → update same k b f j ≡ f j
update-other same k j b f e = rw e refl

module _ {Key : Type 0} (same : Key → Key → Bool) where
  abbrev added : StoreOptions → Key → Held Key → Held Key
  added o k s = record s {
    counted = update same k (suc (s.counted k)) s.counted;
    window = update same k (if s.counted k == 0 then o.duration else s.window k) s.window;
  }

  abbrev closed : Key → ℕ → Held Key → Held Key
  closed k n s = record s { shut = update same k true s.shut; left = update same k n s.left }

  abbrev dropped : Key → Held Key → Held Key
  dropped k s = record s { counted = update same k 0 s.counted; shut = update same k false s.shut }

  -- Some seconds later.
  abbrev later : ℕ → Held Key → Held Key
  later n s = record {
    counted = λ k. if ltb n (s.window k) then s.counted k else 0;
    shut = λ k. s.shut k && ltb n (s.left k);
    window = λ k. s.window k - n;
    left = λ k. s.left k - n;
  }

  abbrev pub memory : Limiter Key
  memory = record {
    State = Held Key;
    is_blocked = λ o k s. some (s.shut k);
    available_in = λ o k s. some (s.left k);
    increment = λ o k s. some (suc (s.counted k), added o k s);
    block = λ o k n s. some (closed k n s);
    delete = λ o k s. some (dropped k s);
  }

  module _ (same_refl : (k : Key) → same k k ≡ true)
      (same_other : (k j : Key) → j ≢ k → same k j ≡ false) where
    abbrev pub works : Works Key memory
    works = record {
      consumed = λ k s. s.counted k;
      blocked = λ k s. s.shut k;
      remaining = λ k s. s.left k;
      window_left = λ k s. s.window k;
      elapse = later;
      after_increment = added;
      after_block = closed;
      after_delete = dropped;
      consumed_elapse = λ n k s. refl;
      blocked_elapse = λ n k s. refl;
      window_left_elapse = λ n k s. refl;
      remaining_elapse = λ n k s. refl;
      window_left_increment = λ o k s.
          update-at same k (if s.counted k == 0 then o.duration else s.window k) s.window
            (same_refl k);
      remaining_block = λ k n s. update-at same k n s.left (same_refl k);
      remaining_delete_other = λ k j s ne. refl;
      is_blocked_lem = λ o k s. refl;
      available_in_lem = λ o k s. refl;
      increment_lem = λ o k s. refl;
      block_lem = λ o k n s. refl;
      delete_lem = λ o k s. refl;
      consumed_increment = λ o k s. update-at same k (suc (s.counted k)) s.counted (same_refl k);
      consumed_increment_other =
          λ o k j s ne. update-other same k j (suc (s.counted k)) s.counted (same_other k j ne);
      blocked_increment = λ o k j s. refl;
      consumed_block = λ k j n s ne. refl;
      blocked_block = λ k n s. update-at same k true s.shut (same_refl k);
      blocked_block_other = λ k j n s ne. update-other same k j true s.shut (same_other k j ne);
      consumed_delete = λ k s. update-at same k 0 s.counted (same_refl k);
      consumed_delete_other = λ k j s ne. update-other same k j 0 s.counted (same_other k j ne);
      blocked_delete = λ k s. update-at same k false s.shut (same_refl k);
      blocked_delete_other = λ k j s ne. update-other same k j false s.shut (same_other k j ne);
    }
