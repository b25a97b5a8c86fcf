-- ===== src/Db/Memory.antt =====
-- A table in memory, which shows that the interface can be met.
use adonis_authkit.Prelude.{
  Bool, not, ◌≡◌, refl, Option, some, none, List, [], ◌∷◌, ◌++◌, arith, keep, some_of,
  if◌then◌else◌,
}
use adonis_authkit.Db.{Table, amend}

module _ {Row : Type 0} (clashes : Row → Row → Bool) where
  abbrev pub insert_row : Row → List Row → Option (List Row)
  insert_row r s = if some_of (clashes r) s then none else some (s ++ r ∷ [])

  pub insert_row_lem :
      (r : Row) (s : List Row) {t : List Row} → insert_row r s ≡ some t → t ≡ s ++ r ∷ []
  insert_row_lem r s e = ground arith

  -- `clashes` is the unique index.
  abbrev pub memory : Table Row
  memory = record {
    State = List Row;
    rows = λ s. s;
    insert = insert_row;
    delete = λ p s. keep (λ r. not (p r)) s;
    update = amend;
    rows_insert = insert_row_lem;
    rows_delete = λ p s. refl;
    rows_update = λ p f s. refl;
  }
