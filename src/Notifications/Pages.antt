-- ===== src/Notifications/Pages.antt =====
-- A user's notifications, read page after page.
use skon_biztrip_web.Base.{
  ℕ, zero, suc, ◌*◌, ◌≤◌, ◌≡◌, refl, sym, ap, ◌∙◌, Bool, true, false, not, ◌&&◌, ◌==◌, List, [],
  ◌∷◌, ◌++◌, map, select, length, sort_by, arith,
}
use skon_biztrip_web.Base.Sort.Laws.{
  count, count-sort_by, count-select, count-map, IsOrdered, sort_by-IsOrdered, map-IsOrdered,
}
use skon_biztrip_web.Errors.{Result, ok, err}
use skon_biztrip_web.Db.Rows.{User, Notification}
use skon_biztrip_web.Db.Session.{Db, handle, query}
use skon_biztrip_web.Page.{slice}
use skon_biztrip_web.Page.Laws.{first_pages, first_pages-all}
use skon_biztrip_web.Notifications.{
  NotificationOut, NotificationPage, out_of, is_listed, is_newer, listed, list_notifications,
}

abbrev total_of : Result NotificationPage → ℕ
total_of (ok page) = page.total
total_of (err e) = 0

abbrev shown : Result NotificationPage → List NotificationOut
shown (ok page) = page.items
shown (err e) = []

-- What the first `n` pages show, one request after another.
abbrev pub read_pages : User → Bool → ℕ → ℕ → Db → List NotificationOut
read_pages user unread_only zero size db = []
read_pages user unread_only (suc n) size db =
    read_pages user unread_only n size db
    ++ shown (handle (list_notifications user unread_only (suc n) size) db).0

-- The rows under a key that are the user's, and not read yet if only those are asked for.
abbrev pub belongs : User → Bool → ℕ → Notification → Bool
belongs user true id n = n.id == id && n.user_id == user.id && not n.is_read
belongs user false id n = n.id == id && n.user_id == user.id

-- Newer ones have greater keys.
abbrev pub IsNoOlder : NotificationOut → NotificationOut → Type 0
IsNoOlder a b = b.id ≤ a.id

belongs-is_listed :
    (user : User) (unread_only : Bool) (id : ℕ) (n : Notification)
    → (is_listed user unread_only n && n.id == id) ≡ belongs user unread_only id n
belongs-is_listed user true id n = ground arith
belongs-is_listed user false id n = ground arith

map_append : {A B : Type 0} (f : A → B) (xs ys : List A) → map f (xs ++ ys) ≡ map f xs ++ map f ys
map_append f [] ys = refl
map_append f (x ∷ xs) ys = ap (λ (l : List _). f x ∷ l) (map_append f xs ys)

count-belongs :
    (user : User) (unread_only : Bool) (id : ℕ) (rows : List Notification)
    → count (λ n. is_listed user unread_only n && n.id == id) rows
      ≡ count (belongs user unread_only id) rows
count-belongs user unread_only id [] = refl
count-belongs user unread_only id (n ∷ rows) =
    rw (belongs-is_listed user unread_only id n) (rw (count-belongs user unread_only id rows) refl)

module _ (user : User) (unread_only : Bool) (size : ℕ) (db : Db) where
  read_pages-first_pages :
      (n : ℕ)
      → read_pages user unread_only n size db
        ≡ map out_of (first_pages n size (listed user unread_only db))
  unfolding first_pages list_notifications handle query slice
  read_pages-first_pages zero = refl
  read_pages-first_pages (suc n) = rw (read_pages-first_pages n) (
      sym (
        map_append out_of (first_pages n size (listed user unread_only db))
          (slice (suc n) size (listed user unread_only db))))

  total-listed :
      (first : NotificationPage)
      → handle (list_notifications user unread_only 1 size) db ≡ (ok first, db)
      → length (listed user unread_only db) ≡ first.total
  unfolding list_notifications handle listed query
  total-listed first h = ap (λ (o : Result NotificationPage × Db). total_of o.0) h

  -- As soon as the pages have room for the total that the first one states, reading page after page of a
  -- list that nobody changes shows each of the user's notifications, or of the unread ones where only
  -- those are asked for, as often as it is stored and no other one, and shows the newer ones first.
  pub list_notifications-read_pages :
      (n : ℕ) (first : NotificationPage)
      → handle (list_notifications user unread_only 1 size) db ≡ (ok first, db)
      → first.total ≤ n * size
      → ((id : ℕ)
          → count
              (λ (item : NotificationOut). item.id == id)
              (read_pages user unread_only n size db)
            ≡ count (belongs user unread_only id) db.notifications.rows)
        × IsOrdered IsNoOlder (read_pages user unread_only n size db)
  unfolding listed
  list_notifications-read_pages n first h room =
      let rows = db.notifications.rows in
      let chosen = select (is_listed user unread_only) rows in
      let all : read_pages user unread_only n size db ≡ map out_of (sort_by is_newer chosen) =
        read_pages-first_pages n
        ∙ ap (map out_of) (first_pages-all n size _ (rw (total-listed first h) room)) in
      (
        λ id.
            ap (count (λ (item : NotificationOut). item.id == id)) all
            ∙ count-map out_of (λ (item : NotificationOut). item.id == id) (sort_by is_newer chosen)
            ∙ count-sort_by (λ (n : Notification). n.id == id) is_newer chosen
            ∙ count-select (λ (n : Notification). n.id == id) (is_listed user unread_only) rows
            ∙ count-belongs user unread_only id rows,
        rw all (
            map-IsOrdered out_of IsNoOlder (sort_by is_newer chosen) (
              sort_by-IsOrdered (λ (a b : Notification). b.id ≤ a.id) is_newer
                (λ a b h. ground arith) (λ a b h. ground arith) chosen)),
      )
