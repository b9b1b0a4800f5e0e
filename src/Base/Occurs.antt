-- ===== src/Base/Occurs.antt =====
-- An element that stands somewhere in a list.
use skon_biztrip_web.Base.{
  String, ◌≡◌, true, List, [], ◌∷◌, any, str_eq, eq_iff, arith, Bool-cases, inl, inr,
}
use mathlib.Core.Path.{subst}

pub data Occurs {A : Type 0} (a : A) : List A → Type 0 where
  at_head : {xs : List A} → Occurs a (a ∷ xs)
  later : {x : A} {xs : List A} → Occurs a xs → Occurs a (x ∷ xs)

-- A text that a list has.
pub any-Occurs : (a : String) (xs : List String) → any (str_eq a) xs ≡ true → Occurs a xs
any-Occurs a [] h = absurd (ground arith)
any-Occurs a (x ∷ xs) h = elim (Bool-cases (str_eq a x)) [
  | inl same ↦ subst (λ (y : String). Occurs a (y ∷ xs)) ((eq_iff a x).0 same) Occurs.at_head
  | inr other ↦ Occurs.later (any-Occurs a xs (rw other at h))
]
