-- ===== src/Page.antt =====
-- A page of a list (backend/app/schemas/common.py), and the part of a query that fills it.
pub mod Laws
use skon_biztrip_web.Base.{ℕ, suc, zero, ◌-◌, ◌*◌, List, [], ◌∷◌}

pub record Page (A : Type 0) : Type 0 where
  pub items : List A
  pub total : ℕ
  pub page : ℕ
  pub size : ℕ

module _ {A : Type 0} where
  -- `.offset(n)`
  unfoldable pub skip : ℕ → List A → List A
  skip zero xs = xs
  skip (suc n) [] = []
  skip (suc n) (x ∷ xs) = skip n xs

  -- `.limit(n)`
  unfoldable pub take : ℕ → List A → List A
  take zero xs = []
  take (suc n) [] = []
  take (suc n) (x ∷ xs) = x ∷ take n xs

  -- `.offset((page - 1) * size).limit(size)`; the routers let no page before the first through.
  unfoldable pub slice : ℕ → ℕ → List A → List A
  slice page size xs = take size (skip ((page - 1) * size) xs)
