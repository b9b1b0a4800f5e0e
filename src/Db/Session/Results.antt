-- ===== src/Db/Session/Results.antt =====
-- What a service that succeeded has done on the way.
use skon_biztrip_web.Base.{◌≡◌, refl, arith}
use skon_biztrip_web.Errors.{Result, ok, err}
use skon_biztrip_web.Db.Session.{
  Db, Session, Service, lift, try_query, pure, flush, commit, ◌>>=◌, ◌>>◌,
}

module _ {A B : Type 0} (f : A → Service B) (b : B) where
  continued :
      (o : Result A × Session)
      → (((λ (s : Session). o) >>= f) o.1).0 ≡ ok b
      → (a : A) × (o.0 ≡ ok a) × ((f a o.1).0 ≡ ok b)
  unfolding ◌>>=◌
  continued (ok a, s) h = (a, refl, h)
  continued (err e, s) h = absurd (ground arith)

  -- Each of two actions in a row has succeeded.
  pub >>=-ok :
      (m : Service A) (s : Session)
      → ((m >>= f) s).0 ≡ ok b
      → (a : A) × ((m s).0 ≡ ok a) × ((f a (m s).1).0 ≡ ok b)
  unfolding ◌>>=◌
  >>=-ok m s h = continued (m s) h

  -- So did a check, and what follows runs in the same session.
  pub lift-ok :
      (r : Result A) (s : Session)
      → ((lift r >>= f) s).0 ≡ ok b
      → (a : A) × (r ≡ ok a) × ((f a s).0 ≡ ok b)
  unfolding lift
  lift-ok r s h = >>=-ok (lift r) s h

  pub try_query-ok :
      (g : Db → Result A) (s : Session)
      → ((try_query g >>= f) s).0 ≡ ok b
      → (a : A) × (g s.current ≡ ok a) × ((f a s).0 ≡ ok b)
  unfolding try_query
  try_query-ok g s h = >>=-ok (try_query g) s h

pub flush-pure :
    {A : Type 0} (g : Db → Db) (a b : A) (s : Session) → ((flush g >> pure a) s).0 ≡ ok b → a ≡ b
unfolding ◌>>=◌
flush-pure g a b s h = ground arith

pub commit-pure : {A : Type 0} (a b : A) (s : Session) → ((commit >> pure a) s).0 ≡ ok b → a ≡ b
unfolding ◌>>=◌
commit-pure a b s h = ground arith

pub pure_is : {A : Type 0} (a b : A) (s : Session) → (pure a s).0 ≡ ok b → a ≡ b
unfolding ◌>>=◌
pure_is a b s h = ground arith

pub try_query_is :
    {A : Type 0} (g : Db → Result A) (b : A) (s : Session)
    → (try_query g s).0 ≡ ok b
    → g s.current ≡ ok b
unfolding try_query
try_query_is g b s h = h
