-- ===== src/Auth/Scopes.antt =====
-- The scope that each endpoint asks of an API key (backend/app/services/api_scopes.py).
pub mod Table
pub mod Laws
use Prim.Native.String.{compare}
use Prim.Native.Nat.{Ordering}
use skon_biztrip_web.Base.{
  String, Bool, true, false, not, ◌&&◌, Option, none, some, List, [], ◌∷◌, any, map, join, str_eq,
  sort_by, upper, if◌then◌else◌,
}
use skon_biztrip_web.Enums.{ApiKeyScope, all_scopes, scope_value}
use skon_biztrip_web.Errors.{Result, ok, err, check, forbidden_error, unexpected, ◌>>◌}
use skon_biztrip_web.Auth.Scopes.Table.{Requirement, scope_requirements, scope_description}

-- `key not in SCOPE_REQUIREMENTS`, and the value of a key that is in it.
abbrev pub find_requirement : String → String → List Requirement → Option (Option ApiKeyScope)
find_requirement method path [] = none
find_requirement method path ((m, p, scope) ∷ rows) =
    if str_eq m method && str_eq p path then some scope else find_requirement method path rows

unfoldable pub required_scope_for : String → String → Result (Option ApiKeyScope)
unfolding upper
required_scope_for method path = elim (find_requirement (upper method) path scope_requirements) [
  | none ↦ err (forbidden_error "SCOPE_UNDECLARED" none)
  | some scope ↦ ok scope
]

-- A (method, path) pair of the application that goes through `get_principal`; the framework finds them.
abbrev pub Route : Type 0
Route = String × String

abbrev pub is_declared : List Requirement → Route → Bool
is_declared [] route = false
is_declared ((m, p, scope) ∷ rows) route =
    if str_eq m route.0 && str_eq p route.1 then true else is_declared rows route

abbrev pub is_routed : List Route → Requirement → Bool
is_routed [] row = false
is_routed ((m, p) ∷ routes) row =
    if str_eq m row.0 && str_eq p row.1 then true else is_routed routes row

-- The two differences of sets must be empty.
unfoldable pub assert_scope_table_complete : List Route → List Requirement → Result (Unit {0})
assert_scope_table_complete routes requirements = do
  check (not (any (λ (r : Route). not (is_declared requirements r)) routes))
      (unexpected "RuntimeError")
  check (not (any (λ (r : Requirement). not (is_routed routes r)) requirements))
      (unexpected "RuntimeError")

pub record ScopeCatalogEntry : Type 0 where
  pub scope : ApiKeyScope
  pub description : String
  pub endpoints : List String

abbrev pub is_scope : ApiKeyScope → Option ApiKeyScope → Bool
is_scope scope none = false
is_scope scope (some other) = str_eq (scope_value scope) (scope_value other)

-- `grouped[scope]`
abbrev pub endpoints_of : ApiKeyScope → List Requirement → List String
endpoints_of scope [] = []
endpoints_of scope ((m, p, s) ∷ rows) =
    let rest = endpoints_of scope rows in
    if is_scope scope s then join (m ∷ " " ∷ p ∷ []) ∷ rest else rest

-- The order of texts by code points.
abbrev pub text_leb : String → String → Bool
text_leb s t = elim (compare s t) [ Ordering.gt ↦ false | _ ↦ true ]

unfoldable pub scope_catalog : List ScopeCatalogEntry
scope_catalog =
    map
      (λ (s : ApiKeyScope). record {
        scope = s;
        description = scope_description s;
        endpoints = sort_by text_leb (endpoints_of s scope_requirements);
      })
      all_scopes
