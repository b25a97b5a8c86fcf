-- ===== src/Db.antt =====
-- A database table as the program reaches it, through the Lucid query builder: a parameter of the
-- models. The program reads the rows that pass a WHERE clause, and inserts, deletes and updates.
-- A failed insert (a unique index) is a throw. No theorem depends on the order of the rows.
pub mod Counting
pub mod Finding
pub mod Memory
use adonis_authkit.Prelude.{
  Bool, true, false, not, ◌≡◌, Option, none, some, List, [], ◌∷◌, ◌++◌, if◌then◌else◌, keep,
}

-- UPDATE … WHERE p
abbrev pub amend {ℓ} : {A : Type ℓ} → (A → Bool) → (A → A) → List A → List A
amend p f [] = []
amend p f (x ∷ xs) = (if p x then f x else x) ∷ amend p f xs

pub record Table (Row : Type 0) : Type 1 where
  pub State : Type 0
  pub rows : State → List Row
  pub insert : Row → State → Option State
  pub delete : (Row → Bool) → State → State
  pub update : (Row → Bool) → (Row → Row) → State → State
  pub rows_insert :
      (r : Row) (s : State) {t : State} → insert r s ≡ some t → rows t ≡ rows s ++ r ∷ []
  pub rows_delete :
      (p : Row → Bool) (s : State) → rows (delete p s) ≡ keep (λ r. not (p r)) (rows s)
  pub rows_update :
      (p : Row → Bool) (f : Row → Row) (s : State) → rows (update p f s) ≡ amend p f (rows s)
