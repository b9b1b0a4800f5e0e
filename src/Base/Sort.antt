-- ===== src/Base/Sort.antt =====
-- Python's stable sort, as insertion sort.
pub mod Laws
use mathlib.Core.Bool.{Bool}
use mathlib.Core.List.{List, [], ◌∷◌}
use skon_biztrip_web.Base.Tests.{if◌then◌else◌}

module _ {A : Type 0} where
  -- Before the first element that does not come earlier.
  unfoldable pub insert_by : (A → A → Bool) → A → List A → List A
  insert_by le a [] = a ∷ []
  insert_by le a (x ∷ xs) = if le a x then a ∷ x ∷ xs else x ∷ insert_by le a xs

  unfoldable pub sort_by : (A → A → Bool) → List A → List A
  unfolding insert_by
  sort_by le [] = []
  sort_by le (x ∷ xs) = insert_by le x (sort_by le xs)
