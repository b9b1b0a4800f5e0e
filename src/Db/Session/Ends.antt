-- ===== src/Db/Session/Ends.antt =====
-- How a request may end: with a result and a stored database that satisfy `Q`, or with an error and
-- the stored database as it was. One rule for each action of a session.
use skon_biztrip_web.Base.{◌≡◌, refl}
use skon_biztrip_web.Errors.{Result, ok, err}
use skon_biztrip_web.Db.Session.{
  Db, Session, Service, pure, lift, query, try_query, flush, try_flush, commit, ◌>>=◌, ◌>>◌, opened,
  handle,
}

abbrev pub Ensures : {A : Type 0} → Db → (A → Db → Type 0) → Result A × Db → Type 0
Ensures db Q (ok a, db') = Q a db'
Ensures db Q (err e, db') = db' ≡ db

-- The same of an action that starts in the session `s`.
pub record Ends {A : Type 0} (db : Db) (Q : A → Db → Type 0) (m : Service A) (s : Session)
    : Type 0 where
  pub ends : Ensures db Q ((m s).0, (m s).1.committed)

module _ {A : Type 0} {db : Db} {Q : A → Db → Type 0} where
  pub Ends-handle : (m : Service A) → Ends db Q m (opened db) → Ensures db Q (handle m db)
  unfolding handle
  Ends-handle m h = h.ends

  pub Ends-query : (g : Db → A) (s : Session) → Q (g s.current) s.committed → Ends db Q (query g) s
  unfolding query
  Ends-query g s h = record { ends = h }

  pub Ends-pure : (a : A) (s : Session) → Q a s.committed → Ends db Q (pure a) s
  unfolding pure
  Ends-pure a s h = record { ends = h }

  pub Ends-flush :
      (g : Db → Db) (k : Service A) (s : Session)
      → Ends db Q k (record s { current = g s.current })
      → Ends db Q (flush g >> k) s
  unfolding ◌>>=◌
  Ends-flush g k s h = record { ends = h.ends }

  pub Ends-commit :
      (k : Service A) (s : Session)
      → Ends db Q k (record s { committed = s.current })
      → Ends db Q (commit >> k) s
  unfolding ◌>>=◌
  Ends-commit k s h = record { ends = h.ends }

  after_flush :
      (r : Result Db) (k : Service A) (s : Session)
      → s.committed ≡ db
      → ((db' : Db) → r ≡ ok db' → Ends db Q k (record s { current = db' }))
      → Ends db Q (try_flush (λ _. r) >> k) s
  unfolding ◌>>=◌
  after_flush (ok db') k s same h = record { ends = (h db' refl).ends }
  after_flush (err e) k s same h = record { ends = same }

  pub Ends-try_flush :
      (g : Db → Result Db) (k : Service A) (s : Session)
      → s.committed ≡ db
      → ((db' : Db) → g s.current ≡ ok db' → Ends db Q k (record s { current = db' }))
      → Ends db Q (try_flush g >> k) s
  unfolding ◌>>=◌
  Ends-try_flush g k s same h = record { ends = (after_flush (g s.current) k s same h).ends }

module _ {A B : Type 0} {db : Db} {Q : B → Db → Type 0} where
  pub Ends-lift :
      (r : Result A) (f : A → Service B) (s : Session)
      → s.committed ≡ db
      → ((a : A) → r ≡ ok a → Ends db Q (f a) s)
      → Ends db Q (lift r >>= f) s
  unfolding ◌>>=◌
  Ends-lift (ok a) f s same k = record { ends = (k a refl).ends }
  Ends-lift (err e) f s same k = record { ends = same }

  pub Ends-try_query :
      (g : Db → Result A) (f : A → Service B) (s : Session)
      → s.committed ≡ db
      → ((a : A) → g s.current ≡ ok a → Ends db Q (f a) s)
      → Ends db Q (try_query g >>= f) s
  unfolding ◌>>=◌
  Ends-try_query g f s same k = record { ends = (Ends-lift (g s.current) f s same k).ends }

  pub Ends-query_bind :
      (g : Db → A) (f : A → Service B) (s : Session)
      → Ends db Q (f (g s.current)) s
      → Ends db Q (query g >>= f) s
  unfolding ◌>>=◌
  Ends-query_bind g f s h = record { ends = h.ends }

  pub Ends-pure_bind :
      (a : A) (f : A → Service B) (s : Session) → Ends db Q (f a) s → Ends db Q (pure a >>= f) s
  unfolding ◌>>=◌
  Ends-pure_bind a f s h = record { ends = h.ends }

module _ {A B C : Type 0} {db : Db} {Q : B → Db → Type 0} where
  nested :
      (o : Result C × Session) (f : C → Service A) (g : A → Service B) (s : Session)
      → Ends db Q ((λ _. o) >>= λ c. f c >>= g) s
      → Ends db Q (((λ _. o) >>= f) >>= g) s
  unfolding ◌>>=◌
  nested (ok c, s') f g s h = record { ends = h.ends }
  nested (err e, s') f g s h = record { ends = h.ends }

  -- A service that another calls is run in its place.
  pub Ends-nest :
      (m : Service C) (f : C → Service A) (g : A → Service B) (s : Session)
      → Ends db Q (m >>= λ c. f c >>= g) s
      → Ends db Q ((m >>= f) >>= g) s
  unfolding ◌>>=◌
  Ends-nest m f g s h = record { ends = (nested (m s) f g s (record { ends = h.ends })).ends }
