-- ===== src/Db/Table/Laws.antt =====
-- Lookups by key after each change of a table.
use skon_biztrip_web.Base.{
  ℕ, ◌≡◌, ◌≢◌, refl, Bool, false, Option, none, some, List, [], ◌∷◌, arith, ◌==◌, if◌then◌else◌,
  first, All, Bool-cases, inl, inr,
}
use mathlib.Core.Path.{subst}
use skon_biztrip_web.Db.Table.{
  Entity, Table, find_row, put_row, delete_row, get, put, insert, delete,
}

module _ {A : Type 0} where
  -- What a lookup finds where an UPDATE by `a` matched the key or did not.
  abbrev pub replaced : Bool → A → Option A → Option A
  replaced same a none = none
  replaced same a (some b) = if same then some a else some b

module _ {A : Type 0} ⦃e : Entity A⦄ where
  find_row-ident : (k : ℕ) (xs : List A) (a : A) → find_row k xs ≡ some a → e.ident a ≡ k
  find_row-ident k [] a h = ground arith
  find_row-ident k (x ∷ xs) a h = ground (arith, find_row-ident k xs a)

  find_row-put_row :
      (k : ℕ) (a : A) (xs : List A)
      → find_row k (put_row a xs) ≡ replaced (e.ident a == k) a (find_row k xs)
  find_row-put_row k a [] = refl
  find_row-put_row k a (x ∷ xs) = ground (arith, find_row-put_row k a xs)

  find_row-delete_row :
      (k j : ℕ) (xs : List A) → j ≢ k → find_row k (delete_row j xs) ≡ find_row k xs
  find_row-delete_row k j [] ne = refl
  find_row-delete_row k j (x ∷ xs) ne = ground (arith, find_row-delete_row k j xs ne)

  -- A row is found under its own key.
  pub get-ident : (k : ℕ) (t : Table A) (a : A) → get k t ≡ some a → e.ident a ≡ k
  unfolding get
  get-ident k t a h = find_row-ident k t.rows a h

  pub get-put :
      (k : ℕ) (a : A) (t : Table A) → get k (put a t) ≡ replaced (e.ident a == k) a (get k t)
  unfolding get put
  get-put k a t = find_row-put_row k a t.rows

  pub get-delete : (k j : ℕ) (t : Table A) → j ≢ k → get k (delete j t) ≡ get k t
  unfolding get delete
  get-delete k j t ne = find_row-delete_row k j t.rows ne

  pub get-insert :
      (k : ℕ) (build : ℕ → A) (t : Table A)
      → e.ident (build t.next_id) ≡ t.next_id
      → get k (insert build t) ≡ (if t.next_id == k then some (build t.next_id) else get k t)
  unfolding get insert
  get-insert k build t h = ground arith

  find_row-first :
      (k : ℕ) (p : A → Bool) (xs : List A) (a : A)
      → first p xs ≡ none
      → find_row k xs ≡ some a
      → p a ≡ false
  find_row-first k p [] a h f = ground arith
  find_row-first k p (x ∷ xs) a h f = ground (arith, find_row-first k p xs a)

  -- Where a query selects nothing, no row that a key finds satisfies its condition.
  pub first-none :
      (k : ℕ) (p : A → Bool) (t : Table A) (a : A)
      → first p t.rows ≡ none
      → get k t ≡ some a
      → p a ≡ false
  unfolding get
  first-none k p t a h f = find_row-first k p t.rows a h f

-- What holds of every row.
module _ {A : Type 0} (P : A → Type 0) ⦃e : Entity A⦄ where
  All-find_row : (k : ℕ) (xs : List A) (a : A) → All P xs → find_row k xs ≡ some a → P a
  All-find_row k [] a h f = ground arith
  All-find_row k (x ∷ xs) a h f = elim (Bool-cases (e.ident x == k)) [
    | inl same ↦ let e' : x ≡ a = ground arith in subst P e' h.0
    | inr other ↦ All-find_row k xs a h.1 (rw other at f)
  ]

  All-put_row : (a : A) (xs : List A) → All P xs → P a → All P (put_row a xs)
  All-put_row a [] h p = tt
  All-put_row a (x ∷ xs) h p = elim (Bool-cases (e.ident x == e.ident a)) [
    | inl same ↦ rw same (p, h.1)
    | inr other ↦ rw other (h.0, All-put_row a xs h.1 p)
  ]

  All-delete_row : (k : ℕ) (xs : List A) → All P xs → All P (delete_row k xs)
  All-delete_row k [] h = tt
  All-delete_row k (x ∷ xs) h = elim (Bool-cases (e.ident x == k)) [
    | inl same ↦ rw same h.1
    | inr other ↦ rw other (h.0, All-delete_row k xs h.1)
  ]

  pub All-get : (k : ℕ) (t : Table A) (a : A) → All P t.rows → get k t ≡ some a → P a
  unfolding get
  All-get k t a h f = All-find_row k t.rows a h f

  pub All-put : (a : A) (t : Table A) → All P t.rows → P a → All P (put a t).rows
  unfolding put
  All-put a t h p = All-put_row a t.rows h p

  pub All-delete : (k : ℕ) (t : Table A) → All P t.rows → All P (delete k t).rows
  unfolding delete
  All-delete k t h = All-delete_row k t.rows h

  pub All-insert :
      (build : ℕ → A) (t : Table A)
      → All P t.rows
      → P (build t.next_id)
      → All P (insert build t).rows
  unfolding insert
  All-insert build t h p = (p, h)
