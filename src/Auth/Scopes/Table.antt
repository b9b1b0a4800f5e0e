-- ===== src/Auth/Scopes/Table.antt =====
-- `SCOPE_REQUIREMENTS` of backend/app/services/api_scopes.py, and `SCOPE_DESCRIPTIONS`.
use skon_biztrip_web.Base.{String, Option, none, some, List, [], ◌∷◌, ◌++◌}
use skon_biztrip_web.Enums.{ApiKeyScope}

-- A row of the table: the method, the path of the route, and the scope, where `none` asks only for
-- authentication.
abbrev pub Requirement : Type 0
Requirement = String × String × Option ApiKeyScope

abbrev user_requirements : List Requirement
user_requirements =
    ("GET", "/api/v1/auth/me", none)
    ∷ ("GET", "/api/v1/codes", none)
    ∷ ("GET", "/api/v1/codes/{group_code}", none)
    ∷ ("GET", "/api/v1/fund-centers", none)
    ∷ ("GET", "/api/v1/cost-centers", none)
    ∷ ("GET", "/api/v1/api-keys", none)
    ∷ ("POST", "/api/v1/api-keys", none)
    ∷ ("POST", "/api/v1/api-keys/{key_id}/revoke", none)
    ∷ ("GET", "/api/v1/scopes", none)
    ∷ ("GET", "/api/v1/notifications", none)
    ∷ ("POST", "/api/v1/notifications/{notification_id}/read", none)
    ∷ ("GET", "/api/v1/trips", some ApiKeyScope.trips_read)
    ∷ ("POST", "/api/v1/trips", some ApiKeyScope.trips_write)
    ∷ ("GET", "/api/v1/trips/{trip_id}", some ApiKeyScope.trips_read)
    ∷ ("PATCH", "/api/v1/trips/{trip_id}", some ApiKeyScope.trips_write)
    ∷ ("DELETE", "/api/v1/trips/{trip_id}", some ApiKeyScope.trips_write)
    ∷ ("POST", "/api/v1/trips/{trip_id}/submit", some ApiKeyScope.trips_write)
    ∷ ("POST", "/api/v1/trips/{trip_id}/approve", some ApiKeyScope.trips_write)
    ∷ ("POST", "/api/v1/trips/{trip_id}/reject", some ApiKeyScope.trips_write)
    ∷ ("POST", "/api/v1/trips/{trip_id}/reopen", some ApiKeyScope.trips_write)
    ∷ ("POST", "/api/v1/trips/{trip_id}/complete", some ApiKeyScope.trips_write)
    ∷ ("GET", "/api/v1/trips/{trip_id}/timeline", some ApiKeyScope.trips_read)
    ∷ ("GET", "/api/v1/cards", some ApiKeyScope.cards_read)
    ∷ ("GET", "/api/v1/card-transactions", some ApiKeyScope.cards_read)
    ∷ ("GET", "/api/v1/expenses", some ApiKeyScope.expenses_read)
    ∷ ("POST", "/api/v1/expenses", some ApiKeyScope.expenses_write)
    ∷ ("GET", "/api/v1/expenses/{report_id}", some ApiKeyScope.expenses_read)
    ∷ ("PATCH", "/api/v1/expenses/{report_id}", some ApiKeyScope.expenses_write)
    ∷ ("GET", "/api/v1/expenses/{report_id}/match-candidates", some ApiKeyScope.expenses_read)
    ∷ ("GET", "/api/v1/expenses/{report_id}/timeline", some ApiKeyScope.expenses_read)
    ∷ ("POST", "/api/v1/expenses/{report_id}/items", some ApiKeyScope.expenses_write)
    ∷ ("PATCH", "/api/v1/expense-items/{item_id}", some ApiKeyScope.expenses_write)
    ∷ ("DELETE", "/api/v1/expense-items/{item_id}", some ApiKeyScope.expenses_write)
    ∷ ("POST", "/api/v1/expenses/{report_id}/submit", some ApiKeyScope.expenses_write)
    ∷ ("POST", "/api/v1/expenses/{report_id}/approve", some ApiKeyScope.expenses_write)
    ∷ ("POST", "/api/v1/expenses/{report_id}/reject", some ApiKeyScope.expenses_write)
    ∷ ("POST", "/api/v1/expenses/{report_id}/reopen", some ApiKeyScope.expenses_write)
    ∷ []

abbrev admin_requirements : List Requirement
admin_requirements =
    ("GET", "/api/v1/admin/departments", some ApiKeyScope.admin)
    ∷ ("POST", "/api/v1/admin/departments", some ApiKeyScope.admin)
    ∷ ("PATCH", "/api/v1/admin/departments/{department_id}", some ApiKeyScope.admin)
    ∷ ("DELETE", "/api/v1/admin/departments/{department_id}", some ApiKeyScope.admin)
    ∷ ("GET", "/api/v1/admin/code-groups", some ApiKeyScope.admin)
    ∷ ("POST", "/api/v1/admin/code-groups", some ApiKeyScope.admin)
    ∷ ("PATCH", "/api/v1/admin/code-groups/{group_id}", some ApiKeyScope.admin)
    ∷ ("DELETE", "/api/v1/admin/code-groups/{group_id}", some ApiKeyScope.admin)
    ∷ ("POST", "/api/v1/admin/code-groups/{group_id}/codes", some ApiKeyScope.admin)
    ∷ ("PATCH", "/api/v1/admin/codes/{code_id}", some ApiKeyScope.admin)
    ∷ ("DELETE", "/api/v1/admin/codes/{code_id}", some ApiKeyScope.admin)
    ∷ ("GET", "/api/v1/admin/fund-centers", some ApiKeyScope.admin)
    ∷ ("POST", "/api/v1/admin/fund-centers", some ApiKeyScope.admin)
    ∷ ("PATCH", "/api/v1/admin/fund-centers/{center_id}", some ApiKeyScope.admin)
    ∷ ("DELETE", "/api/v1/admin/fund-centers/{center_id}", some ApiKeyScope.admin)
    ∷ ("GET", "/api/v1/admin/cost-centers", some ApiKeyScope.admin)
    ∷ ("POST", "/api/v1/admin/cost-centers", some ApiKeyScope.admin)
    ∷ ("PATCH", "/api/v1/admin/cost-centers/{center_id}", some ApiKeyScope.admin)
    ∷ ("DELETE", "/api/v1/admin/cost-centers/{center_id}", some ApiKeyScope.admin)
    ∷ ("GET", "/api/v1/admin/users", some ApiKeyScope.admin)
    ∷ ("POST", "/api/v1/admin/users", some ApiKeyScope.admin)
    ∷ ("GET", "/api/v1/admin/users/{user_id}", some ApiKeyScope.admin)
    ∷ ("PATCH", "/api/v1/admin/users/{user_id}", some ApiKeyScope.admin)
    ∷ ("POST", "/api/v1/admin/users/{user_id}/password", some ApiKeyScope.admin)
    ∷ ("POST", "/api/v1/admin/users/{user_id}/approve", some ApiKeyScope.admin)
    ∷ ("POST", "/api/v1/admin/users/{user_id}/reject", some ApiKeyScope.admin)
    ∷ ("GET", "/api/v1/admin/cards", some ApiKeyScope.admin)
    ∷ ("POST", "/api/v1/admin/cards", some ApiKeyScope.admin)
    ∷ ("PATCH", "/api/v1/admin/cards/{card_id}", some ApiKeyScope.admin)
    ∷ ("DELETE", "/api/v1/admin/cards/{card_id}", some ApiKeyScope.admin)
    ∷ []

unfoldable pub scope_requirements : List Requirement
scope_requirements = user_requirements ++ admin_requirements

abbrev pub scope_description : ApiKeyScope → String
scope_description ApiKeyScope.trips_read = "출장 조회 — 목록·상세·타임라인"
scope_description ApiKeyScope.trips_write = "출장 쓰기 — 신청·수정·삭제·상신·결재·완료"
scope_description ApiKeyScope.expenses_read = "정산 조회 — 목록·상세·매칭후보·타임라인"
scope_description ApiKeyScope.expenses_write = "정산 쓰기 — 생성·항목 편집·제출·결재"
scope_description ApiKeyScope.cards_read = "법인카드 조회 — 카드 목록·카드거래"
scope_description ApiKeyScope.admin = "관리자 API — 공통코드·센터·부서·사용자·법인카드 마스터 CRUD"
