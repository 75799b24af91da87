-- ===== src/RouteTasks.antt =====
-- chats/apps/queues/tasks.py: the tasks that route the rooms of a queue or a sector, under a lock in
-- the cache. The cache is a parameter, with what the tasks rely on as laws; that an entry may expire
-- while a task runs is left out.
pub mod Locking
mod Examples
use chats_engine.Prelude.{
  ℕ, ◌≡◌, Bool, true, false, not, ◌&&◌, ◌||◌, Option, none, some, List, [], ◌∷◌, ◌==◌,
  if◌then◌else◌, find_first, select,
}
use chats_engine.Store.{Queue, Sector, Db, Error, value_error, Result, ok, err}

-- The keys `route_queue_rooms_lock:...`, which queues and sectors share, and
-- `route_queue_rooms_pending:...` and `route_sector_rooms_pending:...`.
pub data Key : Type 0 where
  lock_key pending_queue_key pending_sector_key : ℕ → Key

abbrev pub same_key : Key → Key → Bool
same_key (lock_key a) (lock_key b) = a == b
same_key (pending_queue_key a) (pending_queue_key b) = a == b
same_key (pending_sector_key a) (pending_sector_key b) = a == b
same_key _ _ = false

-- django.core.cache: `add` stores a key that is not there, and says whether it has.
pub record CacheOps (S : Type 0) : Type 0 where
  pub has : Key → S → Bool
  pub add : Key → S → S
  pub delete : Key → S → S
  pub has-add : (k j : Key) (s : S) → has k (add j s) ≡ (same_key j k || has k s)
  pub has-delete : (k j : Key) (s : S) → has k (delete j s) ≡ (not (same_key j k) && has k s)

-- The cache, the database, and the tasks that are scheduled for later.
pub record World (S : Type 0) : Type 0 where
  pub cache : S
  pub db : Db
  pub scheduled : List Key

pub data Answer : Type 0 where
  not_found skipped done : Answer
  raised : Error → Answer

module _ {S : Type 0} (ops : CacheOps S) where
  -- The branch where the lock is held: one retry is scheduled, unless one is pending.
  abbrev pub defer : Key → World S → World S
  defer pending w =
      if ops.has pending w.cache
      then w
      else record w { cache = ops.add pending w.cache; scheduled = pending ∷ w.scheduled }

  abbrev answer_of : Result (Unit {0}) → Answer
  answer_of (ok x) = done
  answer_of (err e) = raised e

  -- `try: ... finally: cache.delete(lock_key)`
  abbrev under_lock : Key → (Db → Result (Unit {0}) × Db) → World S → Answer × World S
  under_lock lock body w = (
    answer_of (body w.db).0,
    record w { cache = ops.delete lock (ops.add lock w.cache); db = (body w.db).1 },
  )

  abbrev pub locked : Key → Key → (Db → Result (Unit {0}) × Db) → World S → Answer × World S
  locked lock pending body w =
      if ops.has lock w.cache then (skipped, defer pending w) else under_lock lock body w

  -- `route` is `QueueRouterService(queue).route_rooms()`; `queues` are the rows that there are.
  pub route_queue_rooms :
      (Queue → Db → Result (Unit {0}) × Db) → List Queue → ℕ → World S → Answer × World S
  route_queue_rooms route queues uuid w = elim (find_first (λ q. q.uuid == uuid) queues) [
    | none ↦ (not_found, w)
    | some q ↦ locked (lock_key uuid) (pending_queue_key uuid) (route q) w
  ]

  -- The loop of `route_sector_rooms`, which passes over a `ValueError`.
  abbrev after_queue :
      Result (Unit {0}) × Db → (Db → Result (Unit {0}) × Db) → Result (Unit {0}) × Db
  after_queue (ok x, db) rest = rest db
  after_queue (err value_error, db) rest = rest db
  after_queue (err e, db) rest = (err e, db)

  pub route_queues :
      (Queue → Db → Result (Unit {0}) × Db) → List Queue → Db → Result (Unit {0}) × Db
  route_queues route [] db = (ok tt, db)
  route_queues route (q ∷ qs) db = after_queue (route q db) (λ next. route_queues route qs next)

  pub route_sector_rooms :
      (Queue → Db → Result (Unit {0}) × Db)
      → List Sector
      → List Queue
      → ℕ
      → World S
      → Answer × World S
  route_sector_rooms route sectors queues uuid w = elim (find_first (λ s. s.uuid == uuid) sectors) [
    | none ↦ (not_found, w)
    | some s ↦
        locked (lock_key uuid) (pending_sector_key uuid)
          (route_queues route (select (λ q. q.sector.uuid == uuid) queues)) w
  ]
