-- ===== src/Limiter.antt =====
-- The rate limiter that the lockouts stand on, @adonisjs/limiter: a parameter of the models. `none`
-- is a throw of the limiter.
pub mod Memory
use adonis_authkit.Prelude.{
  ℕ, zero, suc, ◌-◌, ◌==◌, ◌≡◌, ◌≢◌, Bool, true, false, ◌&&◌, Option, some, ltb, if◌then◌else◌,
}

-- What `limiter.use` is given: how many requests, in how many seconds.
pub record StoreOptions : Type 0 where
  pub requests : ℕ
  pub duration : ℕ

pub record Limiter (Key : Type 0) : Type 1 where
  pub State : Type 0
  pub is_blocked : StoreOptions → Key → State → Option Bool
  pub available_in : StoreOptions → Key → State → Option ℕ
  pub increment : StoreOptions → Key → State → Option (ℕ × State)
  pub block : StoreOptions → Key → ℕ → State → Option State
  pub delete : StoreOptions → Key → State → Option State

-- A limiter that answers: `consumed` and `blocked` are what it holds for a key. Increments count,
-- blocking sets the flag of its key, deletion clears both, and other keys are left alone. Calls take
-- no time; `elapse` is the time between them, in seconds. The first increment of a key opens a
-- window of the store's duration, at whose end the count is forgotten, and a lock is lifted when
-- its duration, of a second or more, has passed.
pub record Works (Key : Type 0) (l : Limiter Key) : Type 0 where
  pub consumed : Key → l.State → ℕ
  pub blocked : Key → l.State → Bool
  pub remaining : Key → l.State → ℕ
  pub window_left : Key → l.State → ℕ
  pub elapse : ℕ → l.State → l.State
  pub after_increment : StoreOptions → Key → l.State → l.State
  pub after_block : Key → ℕ → l.State → l.State
  pub after_delete : Key → l.State → l.State
  pub is_blocked_lem :
      (o : StoreOptions) (k : Key) (s : l.State) → l.is_blocked o k s ≡ some (blocked k s)
  pub available_in_lem :
      (o : StoreOptions) (k : Key) (s : l.State) → l.available_in o k s ≡ some (remaining k s)
  pub increment_lem :
      (o : StoreOptions) (k : Key) (s : l.State)
      → l.increment o k s ≡ some (suc (consumed k s), after_increment o k s)
  pub block_lem :
      (o : StoreOptions) (k : Key) (n : ℕ) (s : l.State)
      → l.block o k n s ≡ some (after_block k n s)
  pub delete_lem :
      (o : StoreOptions) (k : Key) (s : l.State) → l.delete o k s ≡ some (after_delete k s)
  pub consumed_increment :
      (o : StoreOptions) (k : Key) (s : l.State)
      → consumed k (after_increment o k s) ≡ suc (consumed k s)
  pub consumed_increment_other :
      (o : StoreOptions) (k j : Key) (s : l.State)
      → j ≢ k
      → consumed j (after_increment o k s) ≡ consumed j s
  pub blocked_increment :
      (o : StoreOptions) (k j : Key) (s : l.State) → blocked j (after_increment o k s) ≡ blocked j s
  pub consumed_block :
      (k j : Key) (n : ℕ) (s : l.State) → j ≢ k → consumed j (after_block k n s) ≡ consumed j s
  pub blocked_block : (k : Key) (n : ℕ) (s : l.State) → blocked k (after_block k n s) ≡ true
  pub blocked_block_other :
      (k j : Key) (n : ℕ) (s : l.State) → j ≢ k → blocked j (after_block k n s) ≡ blocked j s
  pub consumed_delete : (k : Key) (s : l.State) → consumed k (after_delete k s) ≡ zero
  pub consumed_delete_other :
      (k j : Key) (s : l.State) → j ≢ k → consumed j (after_delete k s) ≡ consumed j s
  pub blocked_delete : (k : Key) (s : l.State) → blocked k (after_delete k s) ≡ false
  pub blocked_delete_other :
      (k j : Key) (s : l.State) → j ≢ k → blocked j (after_delete k s) ≡ blocked j s
  pub consumed_elapse :
      (n : ℕ) (k : Key) (s : l.State)
      → consumed k (elapse n s) ≡ (if ltb n (window_left k s) then consumed k s else 0)
  pub blocked_elapse :
      (n : ℕ) (k : Key) (s : l.State)
      → blocked k (elapse n s) ≡ (blocked k s && ltb n (remaining k s))
  pub window_left_elapse :
      (n : ℕ) (k : Key) (s : l.State) → window_left k (elapse n s) ≡ window_left k s - n
  pub remaining_elapse :
      (n : ℕ) (k : Key) (s : l.State) → remaining k (elapse n s) ≡ remaining k s - n
  pub window_left_increment :
      (o : StoreOptions) (k : Key) (s : l.State)
      → window_left k (after_increment o k s)
        ≡ (if consumed k s == 0 then o.duration else window_left k s)
  pub remaining_block : (k : Key) (n : ℕ) (s : l.State) → remaining k (after_block k n s) ≡ n
  pub remaining_delete_other :
      (k j : Key) (s : l.State) → j ≢ k → remaining j (after_delete k s) ≡ remaining j s
