-- ===== src/InService/Frame.antt =====
-- Recording the In-Service status changes no room, pin, tag or permission
-- (chats/apps/projects/usecases/status_service.py).
use chats_engine.Prelude.{
  ℕ, ◌≡◌, refl, ◌∙◌, Bool, true, false, Option, none, some, arith, ◌==◌, if◌then◌else◌, find_first,
}
use chats_engine.Store.{
  Project, Permission, CustomStatus, Effect, status_logged, Db, Error, Result, ok,
}
use chats_engine.InService.{
  get_or_create_status_type, has_priority_status, create_status, close_status, find_permission,
  assign_status, room_assigned, end_service, room_closed, Celery, send_last, room_count,
  is_in_service,
}

-- The tables that the service only reads are the same.
pub record SameRooms (db db' : Db) : Type 0 where
  pub rooms : db'.rooms ≡ db.rooms
  pub pins : db'.pins ≡ db.pins
  pub room_tags : db'.room_tags ≡ db.room_tags
  pub permissions : db'.permissions ≡ db.permissions
  pub authorizations : db'.authorizations ≡ db.authorizations

pub SameRooms-refl : (db : Db) → SameRooms db db
SameRooms-refl db = record {
  rooms = refl;
  pins = refl;
  room_tags = refl;
  permissions = refl;
  authorizations = refl;
}

pub SameRooms-trans : (a b c : Db) → SameRooms a b → SameRooms b c → SameRooms a c
SameRooms-trans a b c p q = record {
  rooms = q.rooms ∙ p.rooms;
  pins = q.pins ∙ p.pins;
  room_tags = q.room_tags ∙ p.room_tags;
  permissions = q.permissions ∙ p.permissions;
  authorizations = q.authorizations ∙ p.authorizations;
}

assign_status-SameRooms :
    (now user : ℕ) (project : Project) (p : Permission) (db : Db)
    → SameRooms db (assign_status now user project p db)
unfolding assign_status create_status has_priority_status get_or_create_status_type
assign_status-SameRooms now user project p db = ground arith

type-SameRooms :
    (project : Project) (db : Db) → SameRooms db (get_or_create_status_type project db).1
unfolding get_or_create_status_type
type-SameRooms project db = ground arith

send_last-SameRooms :
    (o : Option Error) (e : Effect) (before x : Db)
    → SameRooms before x
    → SameRooms before (send_last o e before x).1
send_last-SameRooms none e before x s = record {
  rooms = s.rooms;
  pins = s.pins;
  room_tags = s.room_tags;
  permissions = s.permissions;
  authorizations = s.authorizations;
}
send_last-SameRooms (some y) e before x s = SameRooms-refl before

end_status-SameRooms :
    (celery : Celery) (now : ℕ) (logged : Effect) (before x : Db) (o : Option CustomStatus)
    → SameRooms before x
    → SameRooms before (
        let s : Result (Unit {0}) × Db = elim o [
          | none ↦ (ok tt, x)
          | some status ↦
              let ended = close_status now status x in
              send_last (celery logged ended) logged before ended
        ] in
        s.1)
unfolding close_status
end_status-SameRooms celery now logged before x none s = s
end_status-SameRooms celery now logged before x (some status) s =
    let ended = close_status now status x in
    send_last-SameRooms (celery logged ended) logged before ended record {
      rooms = s.rooms;
      pins = s.pins;
      room_tags = s.room_tags;
      permissions = s.permissions;
      authorizations = s.authorizations;
    }

if-SameRooms :
    (b : Bool) (x y : Result (Unit {0}) × Db) (db : Db)
    → SameRooms db x.1
    → SameRooms db y.1
    → SameRooms db (if b then x else y).1
if-SameRooms true x y db s t = s
if-SameRooms false x y db s t = t

end_service-SameRooms :
    (celery : Celery) (now user : ℕ) (project : Project) (db : Db)
    → SameRooms db (end_service celery now user project db).1
unfolding end_service
end_service-SameRooms celery now user project db =
    let (type, typed) = get_or_create_status_type project db in
    if-SameRooms (room_count user project typed == 0) _ _ db
      (end_status-SameRooms celery now (status_logged user project.uuid "ONLINE" none) db typed
        (find_first (is_in_service user project.uuid type) typed.statuses)
        (type-SameRooms project db))
      (type-SameRooms project db)

found-SameRooms :
    (now user : ℕ) (project : Project) (o : Option Permission) (db : Db)
    → SameRooms db (elim o [ none ↦ db | some p ↦ assign_status now user project p db ])
found-SameRooms now user project none db = SameRooms-refl db
found-SameRooms now user project (some p) db = assign_status-SameRooms now user project p db

pub room_assigned-SameRooms :
    (now : ℕ) (user : Option ℕ) (project : Option Project) (db : Db)
    → SameRooms db (room_assigned now user project db)
unfolding room_assigned
room_assigned-SameRooms now none project db = SameRooms-refl db
room_assigned-SameRooms now (some user) none db = SameRooms-refl db
room_assigned-SameRooms now (some user) (some project) db =
    found-SameRooms now user project (find_permission user project.uuid db.permissions) db

pub room_closed-SameRooms :
    (celery : Celery) (now : ℕ) (user : Option ℕ) (project : Option Project) (db : Db)
    → SameRooms db (room_closed celery now user project db).1
unfolding room_closed
room_closed-SameRooms celery now none project db = SameRooms-refl db
room_closed-SameRooms celery now (some user) none db = SameRooms-refl db
room_closed-SameRooms celery now (some user) (some project) db =
    end_service-SameRooms celery now user project db
