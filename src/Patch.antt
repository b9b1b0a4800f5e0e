-- ===== src/Patch.antt =====
-- Partial updates: `model_dump(exclude_unset=True)` keeps only the fields that the client sent, and
-- a field that it sent may be null.
use skon_biztrip_web.Base.{Option, none, some}
use skon_biztrip_web.Errors.{Result, ok, err, unexpected}

pub data Patch (A : Type 0) : Type 0 where
  unset : Patch A
  null : Patch A
  value : A → Patch A

module _ {A : Type 0} where
  -- `changes.get(name, getattr(object, name))` of a column that is never null.
  unfoldable pub merged : Patch A → A → Option A
  merged unset old = some old
  merged null old = none
  merged (value new) old = some new

  -- `setattr` of a nullable column.
  abbrev pub assigned : Patch A → Option A → Option A
  assigned unset old = old
  assigned null old = none
  assigned (value new) old = some new

  -- `changes.get(name)`
  abbrev pub sent : Patch A → Option A
  sent unset = none
  sent null = none
  sent (value new) = some new

  -- The flush of a NOT NULL column.
  abbrev pub not_null : Option A → Result A
  not_null none = err (unexpected "IntegrityError")
  not_null (some a) = ok a
