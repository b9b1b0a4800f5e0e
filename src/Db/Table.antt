-- ===== src/Db/Table.antt =====
-- A table of the database as the ORM sees it: rows under integer keys that a sequence hands out.
-- Keys are unique, so an UPDATE or a DELETE by key stops at the first row that has it.
-- The order of the rows carries no meaning; each query that needs an order sorts.
pub mod Laws
use skon_biztrip_web.Base.{ℕ, ◌+◌, Option, none, some, List, [], ◌∷◌, ◌==◌, if◌then◌else◌}

-- The primary key of a row.
pub record Entity (A : Type 0) : Type 0 where
  pub ident : A → ℕ

pub record Table (A : Type 0) : Type 0 where
  pub rows : List A
  pub next_id : ℕ

module _ {A : Type 0} ⦃e : Entity A⦄ where
  abbrev pub find_row : ℕ → List A → Option A
  find_row k [] = none
  find_row k (x ∷ xs) = if e.ident x == k then some x else find_row k xs

  abbrev pub put_row : A → List A → List A
  put_row a [] = []
  put_row a (x ∷ xs) = if e.ident x == e.ident a then a ∷ xs else x ∷ put_row a xs

  abbrev pub delete_row : ℕ → List A → List A
  delete_row k [] = []
  delete_row k (x ∷ xs) = if e.ident x == k then xs else x ∷ delete_row k xs

  -- `session.get(Model, key)`
  unfoldable pub get : ℕ → Table A → Option A
  get k t = find_row k t.rows

  -- A changed object that is flushed: UPDATE of the row with its key.
  unfoldable pub put : A → Table A → Table A
  put a t = record t { rows = put_row a t.rows }

  -- A new object that is flushed: INSERT with the next key of the sequence.
  unfoldable pub insert : (ℕ → A) → Table A → Table A
  insert build t = record { rows = build t.next_id ∷ t.rows; next_id = t.next_id + 1 }

  -- `session.delete(object)`, flushed.
  unfoldable pub delete : ℕ → Table A → Table A
  delete k t = record t { rows = delete_row k t.rows }
