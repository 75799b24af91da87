-- ===== src/Queues/Router.antt =====
-- chats/apps/queues/services.py, QueueRouterService.
-- `Turn` is what happens outside of one turn of the loop: the time, the number that is drawn, and
-- what other processes have written since the turn before.
pub mod Turns
pub mod Limits
pub mod Waiting
pub mod Exhaustion
mod Examples
use chats_engine.Prelude.{
  ℕ, suc, ◌+◌, ◌-◌, ◌/◌, Bool, true, false, not, ◌&&◌, ◌||◌, Option, none, some, List, [], ◌∷◌, leb,
  ◌==◌, if◌then◌else◌, is_some, any, select,
}
use chats_engine.Prelude.Int.{ℤ, pos, negsuc, sub_ℕ, ◌+ℤ◌}
use chats_engine.Store.{
  Project, Sector, Queue, Permission, Room, RoomMetrics, Effect, queue_event, permission_event,
  ticket_assignee, feedback, automatic_message, Db, Error, attribute_error, does_not_exist,
  value_error, Result, ok, err,
}
use chats_engine.Store.Tables.{find_room, in_queue, send, send_if}
use chats_engine.InService.{is_online, find_permission, second}
use chats_engine.Rooms.{Instance, load, save}
use chats_engine.Queues.{
  Env, is_seen, available_agents, get_available_agent, AgentCapacityResult, execute, order_by,
}

pub record Turn : Type 0 where
  pub now : ℕ
  pub draw : ℕ → ℕ
  pub others : Db → Db

-- `Coalesce("added_to_queue_at", "created_on")`
abbrev pub date_field : Room → ℕ
date_field r = elim r.added_to_queue_at [ none ↦ r.created_on | some t ↦ t ]

abbrev pub is_queued : ℕ → Room → Bool
is_queued queue r = in_queue queue r.queue && r.is_active && not (is_some r.user)

pub get_rooms_to_route : Queue → Db → List Room
get_rooms_to_route q db = order_by date_field (select (is_queued q.uuid) db.rooms)

-- `int((end_time - room.added_to_queue_at).total_seconds())`, towards zero, or 0.
abbrev truncate : ℤ → ℤ
truncate (pos n) = pos (n / second)
truncate (negsuc n) = if suc n / second == 0 then pos 0 else negsuc (suc n / second - 1)

pub calculate_last_queue_waiting_time : ℕ → Room → ℤ
unfolding sub_ℕ
calculate_last_queue_waiting_time now r = elim r.added_to_queue_at [
  | none ↦ pos 0
  | some t ↦ truncate (sub_ℕ now t)
]

-- `RoomMetrics.objects.get_or_create(room=room)[0]` and what is added to it.
abbrev pub add_metrics : ℕ → ℤ → List RoomMetrics → List RoomMetrics
add_metrics room waiting [] = record { room = room; waiting_time = waiting; queued_count = 1 } ∷ []
add_metrics room waiting (m ∷ ms) =
    if m.room == room
    then record m { waiting_time = m.waiting_time +ℤ waiting; queued_count = m.queued_count + 1 }
      ∷ ms
    else m ∷ add_metrics room waiting ms

-- `room.notify_user("update")`
abbrev pub notify_user : ℕ → Project → ℕ → Db → Db
notify_user user project room db = elim (find_permission user project.uuid db.permissions) [
  | none ↦ db
  | some p ↦ send (permission_event p.uuid room "rooms.update") db
]

-- How a turn ends: `continue` and the end of the body, `break`, or an exception.
pub data Next : Type 0 where
  go : Db → Next
  stop : Db → Next
  raised : Error → Db → Next

abbrev pub db_of : Next → Db
db_of (go db) = db
db_of (stop db) = db
db_of (raised e db) = db

-- What follows `room.save()` in a turn, in the room's queue.
pub tell : ℕ → ℕ → Bool → Room → Queue → Db → Db
tell now user assigned_before r q db =
    let told = send (feedback r.uuid "rt") (
      send (ticket_assignee r.uuid r.ticket_uuid user) (
        send (queue_event q.uuid r.uuid "rooms.update")
          (notify_user user q.sector.project r.uuid db))) in
    let greets = not assigned_before && q.sector.automatic_message && is_some r.user_assigned_at in
    let greeted = send_if greets (automatic_message r.uuid) told in
    record greeted {
      metrics = add_metrics r.uuid (calculate_last_queue_waiting_time now r) greeted.metrics;
    }

abbrev pub announce : ℕ → ℕ → Bool → Room → Option Queue → Db → Next
announce now user assigned_before r none db = raised attribute_error db
announce now user assigned_before r (some q) db = go (tell now user assigned_before r q db)

abbrev pub is_empty {ℓ} : {A : Type ℓ} → List A → Bool
is_empty [] = true
is_empty (x ∷ xs) = false

-- What a turn's end means for the turns that are left.
abbrev pub follow : Next → (Db → Result (Unit {0}) × Db) → Result (Unit {0}) × Db
follow (go db) rest = rest db
follow (stop db) rest = (ok tt, db)
follow (raised e db) rest = (err e, db)

module _ (env : Env) (q : Queue) where
  -- `is_still_online`
  abbrev is_still_online : ℕ → ℕ → Db → Bool
  is_still_online now user db =
      any
        (λ p.
          not p.is_deleted
          && p.user == user
          && p.project == q.sector.project.uuid
          && is_online p.status
          && is_seen env now q p)
        db.permissions

  abbrev pub saved : ℕ → ℕ → Room → Result Instance × Db → Next
  saved now user r (err e, db) = raised e db
  saved now user r (ok i, db) =
      announce now user (is_some r.user_assigned_at) i.room i.room.queue db

  pub assign : ℕ → ℕ → Room → Db → Next
  assign now user r db =
      saved now user r (save now (record (load r) { room = record r { user = some user } }) db)

  abbrev pub passes : ℕ → ℕ → Db → Bool
  passes now user db =
      is_still_online now user db
      && (not env.capacity_recheck || (execute env q user db).can_receive)

  -- The turn of a room, as it is in the database again, with the agent that is available.
  pub give : ℕ → Room → Db → Option Permission → Next
  give now r db none = stop db
  give now r db (some p) = if passes now p.user db then assign now p.user r db else go db

  pub turn : Turn → Room → Db → Next
  turn t room db = elim (find_room room.uuid db.rooms) [
    | none ↦ raised does_not_exist db
    | some r ↦
        if is_some r.user
        then go db
        else give t.now r db (get_available_agent env t.now q t.draw db)
  ]

  pub route_loop : (ℕ → Turn) → ℕ → List Room → Db → Result (Unit {0}) × Db
  route_loop world n [] db = (ok tt, db)
  route_loop world n (room ∷ rooms) db =
      follow (turn (world n) room ((world n).others db))
        (λ next. route_loop world (suc n) rooms next)

  pub route_rooms : (ℕ → Turn) → ℕ → Db → Result (Unit {0}) × Db
  route_rooms world now db =
      if is_empty (get_rooms_to_route q db)
      then (ok tt, db)
      else if is_empty (available_agents env now q db)
      then (ok tt, db)
      else route_loop world 0 (get_rooms_to_route q db) db

  -- QueueRouterService(queue).route_rooms()
  pub route : (ℕ → Turn) → ℕ → Db → Result (Unit {0}) × Db
  route world now db =
      if q.sector.project.queue_priority then route_rooms world now db else (err value_error, db)
