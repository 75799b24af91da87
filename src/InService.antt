-- ===== src/InService.antt =====
-- chats/apps/projects/usecases/status_service.py, `InServiceStatusService`, with the writes of
-- `CustomStatus.save` (chats/apps/projects/models/models.py). Each method is one transaction.
pub mod Single
pub mod Sync
pub mod Frame
pub mod Unsent
mod Examples
use chats_engine.Prelude.{
  ℕ, suc, ◌+◌, ◌-◌, ◌/◌, String, Bool, true, false, not, ◌&&◌, Option, none, some, List, [], ◌∷◌,
  ◌++◌, map, str_eq, ltb, ◌==◌, if◌then◌else◌, is_some, same, find_first, count_if, any,
}
use chats_engine.Store.{
  Presence, online, Project, Room, Permission, StatusType, CustomStatus, Effect, status_logged, Db,
  Error, Result, ok, err,
}
use chats_engine.Store.Tables.{in_project, send}

-- STATUS_NAME
abbrev pub status_name : String
status_name = "In-Service"

abbrev pub second : ℕ
second = 1000000

-- `CustomStatusType.objects.get_or_create(name=STATUS_NAME, project=project, ...)`
abbrev pub is_type : ℕ → StatusType → Bool
is_type project t = str_eq t.name status_name && t.project == project

abbrev new_type : Project → Db → StatusType
new_type project db = record { uuid = db.next_id; name = status_name; project = project.uuid }

unfoldable pub get_or_create_status_type : Project → Db → StatusType × Db
get_or_create_status_type project db = elim (find_first (is_type project.uuid) db.status_types) [
  | some t ↦ (t, db)
  | none ↦ (
    new_type project db,
    record db {
      status_types = db.status_types ++ new_type project db ∷ [];
      next_id = db.next_id + 1;
    },
  )
]

-- An active status of the user in the project.
abbrev pub is_active_of : ℕ → ℕ → CustomStatus → Bool
is_active_of user project s = s.is_active && s.user == user && s.project == project

abbrev pub is_priority : ℕ → ℕ → StatusType → CustomStatus → Bool
is_priority user project type s =
    is_active_of user project s && not (s.status_type.uuid == type.uuid)

abbrev pub is_in_service : ℕ → ℕ → StatusType → CustomStatus → Bool
is_in_service user project type s = is_active_of user project s && s.status_type.uuid == type.uuid

pub has_priority_status : ℕ → Project → Db → Bool × Db
has_priority_status user project db =
    let (type, db') = get_or_create_status_type project db in
    (any (is_priority user project.uuid type) db'.statuses, db')

-- `Room.objects.filter(user=user, queue__sector__project=project, is_active=True).count()`
abbrev serves : ℕ → ℕ → Room → Bool
serves user project r = r.is_active && same r.user (some user) && in_project project r.queue

abbrev pub room_count : ℕ → Project → Db → ℕ
room_count user project db = count_if (serves user project.uuid) db.rooms

-- `CustomStatus.save` of an active status: the user's other active status in the project ends.
abbrev pub deactivate : ℕ → ℕ → CustomStatus → CustomStatus
deactivate user project s =
    if is_active_of user project s then record s { is_active = false } else s

pub create_status : ℕ → ℕ → StatusType → Db → Db
create_status now user type db = record db {
  statuses =
      map (deactivate user type.project) db.statuses
      ++ record {
        uuid = db.next_id;
        user = user;
        status_type = type;
        is_active = true;
        break_time = 0;
        project = type.project;
        created_on = now;
      }
        ∷ [];
  next_id = db.next_id + 1;
}

-- `status.is_active = False; status.break_time = ...; status.save(...)`
abbrev pub end_status : ℕ → CustomStatus → CustomStatus → CustomStatus
end_status now status s =
    if s.uuid == status.uuid
    then record s { is_active = false; break_time = (now - status.created_on) / second }
    else s

pub close_status : ℕ → CustomStatus → Db → Db
close_status now status db = record db { statuses = map (end_status now status) db.statuses }

abbrev pub find_permission : ℕ → ℕ → List Permission → Option Permission
find_permission user project permissions =
    find_first (λ p. not p.is_deleted && p.user == user && p.project == project) permissions

abbrev pub is_online : Presence → Bool
is_online online = true
is_online _ = false

-- The last `if` of `room_assigned`.
pub assign_status : ℕ → ℕ → Project → Permission → Db → Db
assign_status now user project permission db =
    let (type, db') = get_or_create_status_type project db in
    let (has_priority, db'') = has_priority_status user project db' in
    let in_service = find_first (is_in_service user project.uuid type) db''.statuses in
    if ltb 0 (room_count user project db')
      && not (is_some in_service)
      && not has_priority
      && is_online permission.status
    then send (status_logged user project.uuid "OFFLINE" (some type.name))
        (create_status now user type db'')
    else db''

pub room_assigned : ℕ → Option ℕ → Option Project → Db → Db
room_assigned now none project db = db
room_assigned now (some user) none db = db
room_assigned now (some user) (some project) db =
    elim (find_permission user project.uuid db.permissions) [
      | none ↦ db
      | some permission ↦ assign_status now user project permission db
    ]

-- What sending a task to celery raises, where it does; the database is the one at that time.
abbrev pub Celery : Type 0
Celery = Effect → Db → Option Error

abbrev pub always_sends : Celery
always_sends e db = none

-- The last step of a transaction: what it raises undoes the transaction.
abbrev pub send_last : Option Error → Effect → (before db : Db) → Result (Unit {0}) × Db
send_last none e before db = (ok tt, send e db)
send_last (some x) e before db = (err x, before)

unfoldable pub end_service : Celery → ℕ → ℕ → Project → Db → Result (Unit {0}) × Db
end_service celery now user project db =
    let (type, db') = get_or_create_status_type project db in
    if room_count user project db' == 0
    then elim (find_first (is_in_service user project.uuid type) db'.statuses) [
      | none ↦ (ok tt, db')
      | some status ↦
          let logged = status_logged user project.uuid "ONLINE" none in
          let ended = close_status now status db' in send_last (celery logged ended) logged db ended
    ]
    else (ok tt, db')

unfoldable pub room_closed : Celery → ℕ → Option ℕ → Option Project → Db → Result (Unit {0}) × Db
room_closed celery now none project db = (ok tt, db)
room_closed celery now (some user) none db = (ok tt, db)
room_closed celery now (some user) (some project) db = end_service celery now user project db

-- Of a user and a project that are objects, not ids.
pub sync_agent_status : ℕ → ℕ → Project → Db → Db
sync_agent_status now user project db =
    let (type, db') = get_or_create_status_type project db in
    let (has_priority, db'') = has_priority_status user project db' in
    let status = find_first (is_in_service user project.uuid type) db''.statuses in
    let count = room_count user project db' in
    if ltb 0 count && not (is_some status) && not has_priority
    then create_status now user type db''
    else if count == 0
    then elim status [ none ↦ db'' | some s ↦ close_status now s db'' ]
    else db''
