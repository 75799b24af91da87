-- ===== src/Store/Action.antt =====
-- Code that changes the tables and may raise: what was written before an exception stays written,
-- unless the code runs in `transaction.atomic()` (Django).
use chats_engine.Prelude.{Bool, Option, none, some, if◌then◌else◌}
use chats_engine.Store.{Db, Error, Result, ok, err}

abbrev pub Action : Type 0 → Type 0
Action A = Db → Result A × Db

abbrev pub Done : Type 0
Done = Unit {0}

module _ {A : Type 0} where
  abbrev pub pure : A → Action A
  pure a db = (ok a, db)

  abbrev pub raise : Error → Action A
  raise e db = (err e, db)

  -- An exception undoes what was written, but not what was sent.
  abbrev pub rolled_back : Db → Result A × Db → Result A × Db
  rolled_back before (ok a, db) = (ok a, db)
  rolled_back before (err e, db) = (err e, record before { outbox = db.outbox })

  -- `with transaction.atomic():`
  abbrev pub atomic : Action A → Action A
  atomic m db = rolled_back db (m db)

abbrev pub bind : {A B : Type 0} → Result A × Db → (A → Action B) → Result B × Db
bind (ok a, db) f = f a db
bind (err e, db) f = (err e, db)

infixl 5 ◌>>=◌ ◌>>◌
abbrev pub ◌>>=◌ : {A B : Type 0} → Action A → (A → Action B) → Action B
◌>>=◌ m f db = bind (m db) f

abbrev pub ◌>>◌ : {B : Type 0} → Action Done → Action B → Action B
m >> k = m >>= λ _. k

abbrev pub modify : (Db → Db) → Action Done
modify f db = (ok tt, f db)

abbrev pub when : Bool → Action Done → Action Done
when b m db = if b then m db else (ok tt, db)

-- `try: m except Exception: log`
abbrev pub attempt : Action Done → Action Done
attempt m db = (ok tt, (m db).1)

abbrev pub or_raise : {A : Type 0} → Option A → Error → Action A
or_raise none e = raise e
or_raise (some a) e = pure a
