-- ===== src/Admin/Common.antt =====
-- What the services of the administration share (backend/app/services/admin/common.py).
use skon_biztrip_web.Base.{String, Bool, none, some, List, any, str_eq, if◌then◌else◌}
use skon_biztrip_web.Errors.{Result, ok, err, conflict_error}
use skon_biztrip_web.Db.Session.{Db, Service, try_flush, commit, pure, ◌>>◌}

-- The arguments are the values of the column, and that of the new row.
unfoldable pub assert_unique : List String → String → String → String → Result (Unit {0})
assert_unique column value code field =
    if any (str_eq value) column then err (conflict_error code (some field)) else ok tt

-- `referenced` is the test of the foreign keys. The request has changed nothing else by then, so the
-- rollback leaves what a refused flush leaves.
unfoldable pub delete_entity : (Db → Bool) → (Db → Db) → Service (Unit {0})
delete_entity referenced remove = do
  try_flush
      (λ db. if referenced db then err (conflict_error "HAS_DEPENDENTS" none) else ok (remove db))
  commit
  pure tt
