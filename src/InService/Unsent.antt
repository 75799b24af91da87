-- ===== src/InService/Unsent.antt =====
-- What ending the service of an agent raises, if anything, is what sending its task has raised
-- (chats/apps/projects/usecases/status_service.py).
use chats_engine.Prelude.{
  ℕ, ◌≡◌, refl, Bool, true, false, Option, none, some, ◌==◌, if◌then◌else◌, find_first,
}
use chats_engine.Store.{Project, CustomStatus, Effect, status_logged, Db, Error, Result, ok, err}
use chats_engine.InService.{
  Celery, send_last, room_closed, end_service, close_status, get_or_create_status_type, room_count,
  is_in_service,
}

pub data Unsent (celery : Celery) (x : Error) : Type 0 where
  unsent : (e : Effect) (db : Db) → celery e db ≡ some x → Unsent celery x

abbrev pub Raises : Celery → Result (Unit {0}) → Type 0
Raises celery (ok a) = Unit
Raises celery (err x) = Unsent celery x

module _ (celery : Celery) where
  last-Raises :
      (o : Option Error) (e : Effect) (before x : Db)
      → celery e x ≡ o
      → Raises celery (send_last o e before x).0
  last-Raises none e before x h = tt
  last-Raises (some y) e before x h = unsent e x h

  status-Raises :
      (now : ℕ) (logged : Effect) (before x : Db) (o : Option CustomStatus)
      → Raises celery (
          let s : Result (Unit {0}) × Db = elim o [
            | none ↦ (ok tt, x)
            | some status ↦
                let ended = close_status now status x in
                send_last (celery logged ended) logged before ended
          ] in
          s.0)
  status-Raises now logged before x none = tt
  status-Raises now logged before x (some status) =
      let ended = close_status now status x in
      last-Raises (celery logged ended) logged before ended refl

  if-Raises :
      (b : Bool) (x y : Result (Unit {0}) × Db)
      → Raises celery x.0
      → Raises celery y.0
      → Raises celery (if b then x else y).0
  if-Raises true x y h k = h
  if-Raises false x y h k = k

  pub room_closed-Raises :
      (now : ℕ) (user : Option ℕ) (project : Option Project) (db : Db)
      → Raises celery (room_closed celery now user project db).0
  unfolding room_closed end_service
  room_closed-Raises now none project db = tt
  room_closed-Raises now (some user) none db = tt
  room_closed-Raises now (some user) (some project) db =
      let (type, typed) = get_or_create_status_type project db in
      if-Raises (room_count user project typed == 0) _ _
        (status-Raises now (status_logged user project.uuid "ONLINE" none) db typed
          (find_first (is_in_service user project.uuid type) typed.statuses))
        tt
