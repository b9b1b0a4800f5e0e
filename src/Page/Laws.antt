-- ===== src/Page/Laws.antt =====
-- What a page leaves out and keeps.
use skon_biztrip_web.Base.{
  ◌&&◌, ℕ, suc, zero, ◌+◌, ◌-◌, ◌*◌, ◌≤◌, ◌≡◌, refl, sym, ap, ◌∙◌, Bool, true, List, [], ◌∷◌, ◌++◌,
  All, select, length, map, arith, Bool-cases, inl, inr,
}
use skon_biztrip_web.Page.{skip, take, slice}

rewound : (n size : ℕ) → (suc n - 1) * size ≡ n * size
rewound n size = ap (λ (k : ℕ). k * size) (omega arith)

grown : (n size : ℕ) → n * size + size ≡ suc n * size
grown n size = omega arith

module _ {A : Type 0} where
  take_nil : (n : ℕ) → take {A = A} n [] ≡ []
  unfolding take
  take_nil zero = refl
  take_nil (suc n) = refl

  take_both : (n m : ℕ) (xs : List A) → n ≡ m → take n xs ≡ take m xs
  take_both n m xs e = ap (λ (k : ℕ). take k xs) e

  take-skip : (a b : ℕ) (xs : List A) → (take a xs ++ take b (skip a xs)) ≡ take (a + b) xs
  unfolding take skip
  take-skip zero b xs = take_both b (0 + b) xs (omega arith)
  take-skip (suc a) b [] = take_nil b ∙ sym (take_nil (suc a + b))
  take-skip (suc a) b (x ∷ xs) =
      ap (λ (l : List A). x ∷ l) (take-skip a b xs)
      ∙ take_both (suc (a + b)) (suc a + b) (x ∷ xs) (omega arith)

  take_all : (n : ℕ) (xs : List A) → length xs ≤ n → take n xs ≡ xs
  unfolding take
  take_all zero [] h = refl
  take_all zero (x ∷ xs) h = absurd (omega arith)
  take_all (suc n) [] h = refl
  take_all (suc n) (x ∷ xs) h = ap (λ (l : List A). x ∷ l) (take_all n xs (omega arith))

  length-take_le : (n : ℕ) (xs : List A) → length (take n xs) ≤ n
  unfolding take
  length-take_le zero xs = omega arith
  length-take_le (suc n) [] = omega arith
  length-take_le (suc n) (x ∷ xs) = let h = length-take_le n xs in omega arith

  -- The first pages, one after another.
  unfoldable pub first_pages : ℕ → ℕ → List A → List A
  first_pages zero size xs = []
  first_pages (suc n) size xs = first_pages n size xs ++ slice (suc n) size xs

  first_pages-take : (n size : ℕ) (xs : List A) → first_pages n size xs ≡ take (n * size) xs
  unfolding first_pages slice take
  first_pages-take zero size xs = take_both 0 (0 * size) xs (omega arith)
  first_pages-take (suc n) size xs =
      ap (λ (l : List A). l ++ take size (skip ((suc n - 1) * size) xs))
        (first_pages-take n size xs)
      ∙ ap (λ (k : ℕ). take (n * size) xs ++ take size (skip k xs)) (rewound n size)
      ∙ take-skip (n * size) size xs
      ∙ take_both (n * size + size) (suc n * size) xs (grown n size)

  -- The first pages of one list, one after another, are the list, as soon as they have room for it.
  pub first_pages-all :
      (n size : ℕ) (xs : List A) → length xs ≤ n * size → first_pages n size xs ≡ xs
  first_pages-all n size xs h = first_pages-take n size xs ∙ take_all (n * size) xs h

module _ {A : Type 0} (P : A → Type 0) where
  All-skip : (n : ℕ) (xs : List A) → All P xs → All P (skip n xs)
  unfolding skip
  All-skip zero xs h = h
  All-skip (suc n) [] h = tt
  All-skip (suc n) (x ∷ xs) h = All-skip n xs h.1

  All-take : (n : ℕ) (xs : List A) → All P xs → All P (take n xs)
  unfolding take
  All-take zero xs h = tt
  All-take (suc n) [] h = tt
  All-take (suc n) (x ∷ xs) h = (h.0, All-take n xs h.1)

  pub All-slice : (page size : ℕ) (xs : List A) → All P xs → All P (slice page size xs)
  unfolding slice
  All-slice page size xs h = All-take size _ (All-skip ((page - 1) * size) xs h)

  -- A query's rows satisfy what its condition implies.
  pub All-select :
      (p : A → Bool) → ((a : A) → p a ≡ true → P a) → (xs : List A) → All P (select p xs)
  All-select p implies [] = tt
  All-select p implies (x ∷ xs) = elim (Bool-cases (p x)) [
    | inl kept ↦ rw kept (implies x kept, All-select p implies xs)
    | inr dropped ↦ rw dropped (All-select p implies xs)
  ]

-- Of the conditions of a query, the first one.
pub left_of : (a b : Bool) → (a && b) ≡ true → a ≡ true
left_of a b h = ground arith

pub All-map :
    {A B : Type 0} (f : A → B) (P : B → Type 0) (xs : List A)
    → All (λ x. P (f x)) xs
    → All P (map f xs)
All-map f P [] h = tt
All-map f P (x ∷ xs) h = (h.0, All-map f P xs h.1)
