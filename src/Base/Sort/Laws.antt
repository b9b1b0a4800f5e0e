-- ===== src/Base/Sort/Laws.antt =====
-- Sorting keeps the elements.
use skon_biztrip_web.Base.{
  ℕ, ◌+◌, ◌&&◌, select, ◌≡◌, refl, Bool, true, false, List, [], ◌∷◌, any, All, map, if◌then◌else◌,
  arith, insert_by, sort_by, Bool-cases, inl, inr,
}

module _ {A : Type 0} (le : A → A → Bool) (p : A → Bool) where
  pub any-insert_by :
      (a : A) (xs : List A) → any p (insert_by le a xs) ≡ (if p a then true else any p xs)
  unfolding insert_by
  any-insert_by a [] = refl
  any-insert_by a (x ∷ xs) = ground (arith, any-insert_by a xs)

  pub any-sort_by : (xs : List A) → any p (sort_by le xs) ≡ any p xs
  unfolding sort_by
  any-sort_by [] = refl
  any-sort_by (x ∷ xs) = rw (any-insert_by x (sort_by le xs)) (rw (any-sort_by xs) refl)

pub any-map :
    {A B : Type 0} (f : A → B) (p : B → Bool) (xs : List A)
    → any p (map f xs) ≡ any (λ x. p (f x)) xs
any-map f p [] = refl
any-map f p (x ∷ xs) = rw (any-map f p xs) refl

module _ {A : Type 0} (le : A → A → Bool) (P : A → Type 0) where
  pub All-insert_by : (a : A) (xs : List A) → P a → All P xs → All P (insert_by le a xs)
  unfolding insert_by
  All-insert_by a [] p h = (p, tt)
  All-insert_by a (x ∷ xs) p h = elim (Bool-cases (le a x)) [
    | inl first ↦ rw first (p, h)
    | inr later ↦ rw later (h.0, All-insert_by a xs p h.1)
  ]

  pub All-sort_by : (xs : List A) → All P xs → All P (sort_by le xs)
  unfolding sort_by
  All-sort_by [] h = tt
  All-sort_by (x ∷ xs) h = All-insert_by x _ h.0 (All-sort_by xs h.1)

module _ {A : Type 0} (R : A → A → Type 0) where
  -- Each element before the next.
  abbrev pub IsOrdered : List A → Type 0
  IsOrdered [] = Unit
  IsOrdered (a ∷ []) = Unit
  IsOrdered (a ∷ b ∷ rows) = R a b × IsOrdered (b ∷ rows)

  module _ (le : A → A → Bool) (sound : (a b : A) → le a b ≡ true → R a b)
      (total : (a b : A) → le a b ≡ false → R b a) where
    insert_by-IsOrdered : (a : A) (rows : List A) → IsOrdered rows → IsOrdered (insert_by le a rows)
    unfolding insert_by
    insert_by-IsOrdered a [] h = tt
    insert_by-IsOrdered a (b ∷ []) h = elim (Bool-cases (le a b)) [
      | inl first ↦ rw first (sound a b first, tt)
      | inr later ↦ rw later (total a b later, tt)
    ]
    insert_by-IsOrdered a (b ∷ c ∷ rows) h = elim (Bool-cases (le a b)) [
      | inl first ↦ rw first (sound a b first, h)
      | inr later ↦
          let rest = insert_by-IsOrdered a (c ∷ rows) h.1 in
          elim (Bool-cases (le a c)) [
            | inl near ↦ rw later (rw near (total a b later, (sound a c near, h.1)))
            | inr far ↦ rw later (rw far (h.0, rw far at rest))
          ]
    ]

    -- A list that is sorted by a test of the relation.
    pub sort_by-IsOrdered : (rows : List A) → IsOrdered (sort_by le rows)
    unfolding sort_by
    sort_by-IsOrdered [] = tt
    sort_by-IsOrdered (a ∷ rows) = insert_by-IsOrdered a _ (sort_by-IsOrdered rows)

-- How many elements have a property.
abbrev pub count : {A : Type 0} → (A → Bool) → List A → ℕ
count p [] = 0
count p (x ∷ xs) = (if p x then 1 else 0) + count p xs

module _ {A : Type 0} (p : A → Bool) where
  count-insert_by :
      (le : A → A → Bool) (a : A) (xs : List A) → count p (insert_by le a xs) ≡ count p (a ∷ xs)
  unfolding insert_by
  count-insert_by le a [] = refl
  count-insert_by le a (x ∷ xs) = ground (arith, count-insert_by le a xs)

  pub count-sort_by : (le : A → A → Bool) (xs : List A) → count p (sort_by le xs) ≡ count p xs
  unfolding sort_by
  count-sort_by le [] = refl
  count-sort_by le (x ∷ xs) =
      rw (count-insert_by le x (sort_by le xs)) (rw (count-sort_by le xs) refl)

  pub count-select :
      (q : A → Bool) (xs : List A) → count p (select q xs) ≡ count (λ x. q x && p x) xs
  count-select q [] = refl
  count-select q (x ∷ xs) = ground (arith, count-select q xs)

pub count-map :
    {A B : Type 0} (f : A → B) (p : B → Bool) (xs : List A)
    → count p (map f xs) ≡ count (λ x. p (f x)) xs
count-map f p [] = refl
count-map f p (x ∷ xs) = rw (count-map f p xs) refl

pub map-IsOrdered :
    {A B : Type 0} (f : A → B) (R : B → B → Type 0) (xs : List A)
    → IsOrdered (λ (a b : A). R (f a) (f b)) xs
    → IsOrdered R (map f xs)
map-IsOrdered f R [] h = tt
map-IsOrdered f R (a ∷ []) h = tt
map-IsOrdered f R (a ∷ b ∷ xs) h = (h.0, map-IsOrdered f R (b ∷ xs) h.1)
