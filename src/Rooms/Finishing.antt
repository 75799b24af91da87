-- ===== src/Rooms/Finishing.antt =====
-- What follows the transaction of `Room.close` (chats/apps/rooms/models.py): the status of the agent,
-- and the CSAT flow.
use chats_engine.Prelude.{
  ℕ, ◌≡◌, refl, ◌⊎◌, inl, inr, Bool, true, false, Option, none, some, if◌then◌else◌, is_some,
}
use chats_engine.Store.{Queue, Room, Db, Effect, csat_flow, Error, Result, ok, err}
use chats_engine.Store.Tables.{send}
use chats_engine.InService.{Celery}
use chats_engine.InService.Frame.{SameRooms, SameRooms-refl, room_closed-SameRooms}
use chats_engine.InService.Unsent.{Unsent, unsent, Raises, room_closed-Raises}
use chats_engine.Rooms.{
  Instance, load, project_of, csat_or, csat_if, csat_of, after_service, end_service_of, after_close,
  finish_close,
}

-- An error that comes after the transaction of a closure: the room has no queue, or sending a task
-- has raised it.
pub data Late (celery : Celery) (r : Room) (x : Error) : Type 0 where
  no_queue : r.queue ≡ none → Late celery r x
  unsent_task : Unsent celery x → Late celery r x

-- How what follows the transaction ends, on the room that was saved.
abbrev pub Ends : Celery → Room → Result Instance → Type 0
Ends celery r (ok j) = j ≡ load r
Ends celery r (err x) = Late celery r x

module _ (celery : Celery) (r : Room) where
  sent-SameRooms : (e : Effect) (db x : Db) → SameRooms db x → SameRooms db (send e x)
  sent-SameRooms e db x s = record {
    rooms = s.rooms;
    pins = s.pins;
    room_tags = s.room_tags;
    permissions = s.permissions;
    authorizations = s.authorizations;
  }

  abbrev pub Follows : Db → Result Instance × Db → Type 0
  Follows db (x, db') = Ends celery r x × SameRooms db db'

  csat_or-Follows :
      (o : Option Error) (db x : Db)
      → celery (csat_flow r.uuid) x ≡ o
      → SameRooms db x
      → Follows db (csat_or o r x)
  csat_or-Follows none db x e s = (refl, sent-SameRooms (csat_flow r.uuid) db x s)
  csat_or-Follows (some y) db x e s = (unsent_task (unsent (csat_flow r.uuid) x e), s)

  csat_if-Follows : (b : Bool) (db x : Db) → SameRooms db x → Follows db (csat_if celery b r x)
  csat_if-Follows true db x s = csat_or-Follows (celery (csat_flow r.uuid) x) db x refl s
  csat_if-Follows false db x s = (refl, s)

  csat_of-Follows :
      (q : Option Queue) (db x : Db)
      → r.queue ≡ q
      → SameRooms db x
      → Follows db (csat_of celery q r x)
  csat_of-Follows none db x e s = (no_queue e, s)
  csat_of-Follows (some q) db x e s = csat_if-Follows _ db x s

  after_service-Follows :
      (db : Db) (x : Result (Unit {0}) × Db)
      → Raises celery x.0
      → SameRooms db x.1
      → Follows db (after_service celery r x)
  after_service-Follows db (err e, x) h s = (unsent_task h, s)
  after_service-Follows db (ok a, x) h s = csat_of-Follows r.queue db x refl s

  if_run-Raises :
      (b : Bool) (x y : Result (Unit {0}) × Db)
      → Raises celery x.0
      → Raises celery y.0
      → Raises celery (if b then x else y).0
  if_run-Raises true x y h k = h
  if_run-Raises false x y h k = k

  if_run-SameRooms :
      (b : Bool) (x y : Result (Unit {0}) × Db) (db : Db)
      → SameRooms db x.1
      → SameRooms db y.1
      → SameRooms db (if b then x else y).1
  if_run-SameRooms true x y db s t = s
  if_run-SameRooms false x y db s t = t

  -- What follows the transaction leaves the rooms, pins and tags alone, and returns the instance that
  -- is loaded, or an error that comes late.
  pub after_close-Follows : (now : ℕ) (db : Db) → Follows db (after_close celery now r db)
  unfolding after_close
  after_close-Follows now db =
      after_service-Follows db (end_service_of celery now r db)
        (if_run-Raises (is_some r.user) _ _
          (room_closed-Raises celery now r.user (project_of r.queue) db) tt)
        (if_run-SameRooms (is_some r.user) _ _ db
          (room_closed-SameRooms celery now r.user (project_of r.queue) db) (SameRooms-refl db))

-- A closure ends in the database before it, or in the one that its save has left, with the same
-- rooms, pins and tags.
pub finish_close_cases :
    (celery : Celery) (now : ℕ) (before : Db) (x : Result Instance) (db : Db)
    → ((finish_close celery now before (x, db)).1 ≡ before)
      ⊎ ((j : Instance) × (x ≡ ok j) × SameRooms db (finish_close celery now before (x, db)).1)
unfolding finish_close
finish_close_cases celery now before (err e) db = inl refl
finish_close_cases celery now before (ok j) db =
    inr (j, refl, (after_close-Follows celery j.room now db).1)
