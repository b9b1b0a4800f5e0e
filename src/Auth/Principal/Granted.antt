-- ===== src/Auth/Principal/Granted.antt =====
-- For what a request is let in: the table of scopes and the scopes of a key.
use skon_biztrip_web.Base.{
  String, ◌≡◌, Option, none, some, List, arith, sym, [], ◌∷◌, upper, str_eq, eq_iff, ◌&&◌,
  Bool-cases, inl, inr,
}
use mathlib.Core.Path.{subst}
use skon_biztrip_web.Base.Occurs.{Occurs, any-Occurs}
use skon_biztrip_web.Enums.{ApiKeyScope, scope_value}
use skon_biztrip_web.Errors.{ok}
use skon_biztrip_web.Auth.Scopes.{find_requirement, required_scope_for}
use skon_biztrip_web.Auth.Scopes.Table.{Requirement, scope_requirements}
use skon_biztrip_web.Auth.Principal.{Scopes, scope_granted}

-- What the scopes of a request must hold for a route that asks for `required`: a token may do anything,
-- a key what asks for no scope and what asks for one of its own.
abbrev pub Permits : Scopes → Option ApiKeyScope → Type 0
Permits Scopes.unrestricted required = Unit
Permits (Scopes.limited scopes) none = Unit
Permits (Scopes.limited scopes) (some scope) = Occurs (scope_value scope) scopes

pub scope_granted-Permits :
    (scopes : Scopes) (required : Option ApiKeyScope)
    → scope_granted scopes required ≡ ok tt
    → Permits scopes required
scope_granted-Permits Scopes.unrestricted required h = tt
scope_granted-Permits (Scopes.limited scopes) none h = tt
scope_granted-Permits (Scopes.limited scopes) (some scope) h =
    any-Occurs (scope_value scope) scopes (ground arith)

-- The row of a lookup that found one.
find_requirement-Occurs :
    (method path : String) (rows : List Requirement) (scope : Option ApiKeyScope)
    → find_requirement method path rows ≡ some scope
    → Occurs (method, path, scope) rows
find_requirement-Occurs method path [] scope h = absurd (ground arith)
find_requirement-Occurs method path ((m, p, s) ∷ rows) scope h =
    elim (Bool-cases (str_eq m method && str_eq p path)) [
      | inl same ↦
          let row : (m, p, s) ≡ (method, path, scope) =
            ground (arith, eq_iff m method, eq_iff p path) in
          subst (λ (r : Requirement). Occurs (method, path, scope) (r ∷ rows)) (sym row)
            Occurs.at_head
      | inr other ↦ Occurs.later (find_requirement-Occurs method path rows scope (rw other at h))
    ]

pub required_scope_for-Occurs :
    (method path : String) (scope : Option ApiKeyScope)
    → required_scope_for method path ≡ ok scope
    → Occurs (upper method, path, scope) scope_requirements
unfolding required_scope_for
required_scope_for-Occurs method path scope h =
    find_requirement-Occurs (upper method) path scope_requirements scope (ground arith)
