-- ===== src/Auth/Scopes/Laws.antt =====
-- The table of scopes and the routes of the application.
use skon_biztrip_web.Base.{
  String, ◌≡◌, refl, Bool, true, false, not, ◌&&◌, Option, none, some, List, [], ◌∷◌, any, str_eq,
  eq_iff, if◌then◌else◌, arith, upper,
}
use skon_biztrip_web.Enums.{ApiKeyScope}
use skon_biztrip_web.Errors.{ok, is_ok}
use skon_biztrip_web.Auth.Scopes.Table.{Requirement, scope_requirements}
use skon_biztrip_web.Auth.Scopes.{
  Route, find_requirement, required_scope_for, is_declared, is_routed, assert_scope_table_complete,
}

-- The application has a route for the method and the path.
abbrev pub has_route : List Route → String → String → Bool
has_route [] method path = false
has_route ((m, p) ∷ routes) method path =
    if str_eq m method && str_eq p path then true else has_route routes method path

abbrev is_some : Option (Option ApiKeyScope) → Bool
is_some none = false
is_some (some scope) = true

find_requirement-is_declared :
    (method path : String) (rows : List Requirement)
    → is_some (find_requirement method path rows) ≡ is_declared rows (method, path)
find_requirement-is_declared method path [] = refl
find_requirement-is_declared method path ((m, p, s) ∷ rows) =
    ground (arith, find_requirement-is_declared method path rows)

has_route-is_declared :
    (method path : String) (rows : List Requirement) (routes : List Route)
    → any (λ (r : Route). not (is_declared rows r)) routes ≡ false
    → has_route routes method path ≡ true
    → is_declared rows (method, path) ≡ true
has_route-is_declared method path rows [] covered h = absurd (ground arith)
has_route-is_declared method path rows ((m, p) ∷ routes) covered h =
    ground (arith, eq_iff m method, eq_iff p path, has_route-is_declared method path rows routes)

is_routed-has_route :
    (m p : String) (s : Option ApiKeyScope) (routes : List Route)
    → is_routed routes (m, p, s) ≡ has_route routes m p
is_routed-has_route m p s [] = refl
is_routed-has_route m p s ((n, q) ∷ routes) = ground (arith, is_routed-has_route m p s routes)

is_declared-has_route :
    (method path : String) (routes : List Route) (rows : List Requirement)
    → any (λ (r : Requirement). not (is_routed routes r)) rows ≡ false
    → is_declared rows (method, path) ≡ true
    → has_route routes method path ≡ true
is_declared-has_route method path routes [] covered h = absurd (ground arith)
is_declared-has_route method path routes ((m, p, s) ∷ rows) covered h = ground (
  arith,
  eq_iff m method,
  eq_iff p path,
  is_routed-has_route m p s routes,
  is_declared-has_route method path routes rows,
)

covered :
    (routes : List Route) (rows : List Requirement)
    → assert_scope_table_complete routes rows ≡ ok tt
    → (any (λ (r : Route). not (is_declared rows r)) routes ≡ false)
      × (any (λ (r : Requirement). not (is_routed routes r)) rows ≡ false)
unfolding assert_scope_table_complete
covered routes rows h = ground arith

declared_routes :
    (method path : String) (routes : List Route) (rows : List Requirement)
    → assert_scope_table_complete routes rows ≡ ok tt
    → is_some (find_requirement method path rows) ≡ has_route routes method path
declared_routes method path routes rows h =
    let (up, down) = covered routes rows h in
    ground (
      arith,
      find_requirement-is_declared method path rows,
      has_route-is_declared method path rows routes up,
      is_declared-has_route method path routes rows down,
    )

-- In an application that has passed the check of the table, the scope of a request is found exactly
-- where the application has a route for it; any other request is refused.
pub required_scope_for-has_route :
    (routes : List Route) (method path : String)
    → assert_scope_table_complete routes scope_requirements ≡ ok tt
    → is_ok (required_scope_for method path) ≡ has_route routes (upper method) path
unfolding required_scope_for
required_scope_for-has_route routes method path h =
    ground (arith, declared_routes (upper method) path routes scope_requirements h)
