-- ===== src/Admin/Centers/Laws.antt =====
-- What a deletion of a centre leaves.
use skon_biztrip_web.Base.{
  ℕ, String, ◌≡◌, refl, false, Option, some, List, [], ◌∷◌, any, All, arith, ap, ◌∙◌,
}
use skon_biztrip_web.Errors.{ok}
use skon_biztrip_web.Db.Table.{get, delete}
use skon_biztrip_web.Db.Table.Laws.{get-ident}
use skon_biztrip_web.Db.Rows.{Center, center_entity}
use skon_biztrip_web.Db.Session.{Db, handle}
use skon_biztrip_web.Db.Session.Ends.{
  Ensures, Ends-handle, Ends-pure, Ends-try_flush, Ends-commit, Ends-try_query,
}
use skon_biztrip_web.Admin.Common.{delete_entity}
use skon_biztrip_web.Admin.Centers.{
  CenterModel, centers_of, with_centers, load_center, names, references, assert_unnamed,
  delete_center,
}

load_center-ok :
    (model : CenterModel) (center_id : ℕ) (db : Db) (c : Center)
    → load_center model center_id db ≡ ok c
    → get center_id (centers_of model db) ≡ some c
unfolding load_center
load_center-ok model center_id db c h = ground arith

assert_unnamed-All :
    (code : String) (columns : List (List (Option String)))
    → assert_unnamed code columns ≡ ok tt
    → All (λ (column : List (Option String)). any (names code) column ≡ false) columns
assert_unnamed-All code [] h = tt
assert_unnamed-All code (column ∷ columns) h =
    (ground arith, assert_unnamed-All code columns (ground arith))

plainly : (db db' : Db) → ok db ≡ ok db' → db' ≡ db
plainly db db' h = ground arith

-- The centre was there, no trip, report or item names its code, and it is all that is gone.
abbrev pub Deleted : CenterModel → ℕ → Db → Unit {0} → Db → Type 0
Deleted model center_id db done db' =
    (c : Center) × (get center_id (centers_of model db) ≡ some c)
    × All (λ (column : List (Option String)). any (names c.code) column ≡ false)
        (references model db)
    × (db' ≡ with_centers model (delete center_id (centers_of model db)) db)

-- A centre is deleted only where no trip, report or item of the three kinds of columns names its code;
-- or an error is raised and nothing changes.
pub delete_center-Deleted :
    (model : CenterModel) (center_id : ℕ) (db : Db)
    → Ensures db (Deleted model center_id db) (handle (delete_center model center_id) db)
unfolding delete_center delete_entity
delete_center-Deleted model center_id db = Ends-handle _ (
    Ends-try_query _ _ _ refl λ c loaded. Ends-try_query _ _ _ refl λ _ unnamed.
      Ends-try_flush _ _ _ refl λ mid removed. Ends-commit _ _ (
        Ends-pure _ _ (
          let found = load_center-ok model center_id db c loaded in
          (
            c,
            found,
            assert_unnamed-All c.code (references model db) unnamed,
            plainly _ mid removed
                ∙ ap (λ (k : ℕ). with_centers model (delete k (centers_of model db)) db)
                    (get-ident center_id (centers_of model db) c found),
          ))))
