-- ===== src/Rooms.antt =====
-- chats/apps/rooms/models.py, `Room`: saving and closing a room.
-- An `Instance` is a room object in memory; saving writes it over the row of its primary key.
pub mod Pinning
pub mod Saving
pub mod Pins
pub mod Tags
pub mod Finishing
pub mod Closing
pub mod History
pub mod Transfers
mod Examples
use chats_engine.Prelude.{
  ℕ, ◌≤◌, String, Bool, true, false, not, ◌&&◌, ◌||◌, Option, none, some, List, [], ◌∷◌, ◌++◌, leb,
  ◌==◌, if◌then◌else◌, is_some, same, count_if, any, select,
}
use chats_engine.Store.{
  Project, Sector, Queue, Room, RoomPin, Effect, csat_flow, Db, Error, closed_room, integrity_error,
  attribute_error, permission_denied, max_pin_limit, room_not_active, Result, ok, err,
}
use chats_engine.Store.Tables.{find_room, put_room, send}
use chats_engine.InService.{Celery, always_sends, room_assigned, room_closed}

-- `adding` is `_state.adding`; `tracked_user` and `tracked_queue` are what the field tracker holds
-- from the last load or save.
pub record Instance : Type 0 where
  pub room : Room
  pub adding : Bool
  pub tracked_user : Option ℕ
  pub tracked_queue : Option Queue

-- An instance as it is loaded from its row.
abbrev pub load : Room → Instance
load r = record { room = r; adding = false; tracked_user = r.user; tracked_queue = r.queue }

abbrev queue_id : Option Queue → Option ℕ
queue_id none = none
queue_id (some q) = some q.uuid

abbrev pub project_of : Option Queue → Option Project
project_of none = none
project_of (some q) = some q.sector.project

-- `tracker.has_changed("user_id")`
abbrev pub user_has_changed : Instance → Bool
user_has_changed i = not (same i.tracked_user i.room.user)

abbrev pub is_active_in : ℕ → List Room → Option Bool
is_active_in uuid rooms = elim (find_room uuid rooms) [ none ↦ none | some r ↦ some r.is_active ]

-- `user_pk` as `_update_agent_service_status` reads it.
abbrev pub user_in : ℕ → List Room → Option ℕ
user_in uuid rooms = elim (find_room uuid rooms) [ none ↦ none | some r ↦ r.user ]

abbrev pub pin_of : ℕ → RoomPin → Bool
pin_of room p = p.room == room

-- `self.pins.all().delete()`
abbrev pub clear_pins : ℕ → Db → Db
clear_pins room db = record db { pins = select (λ p. not (pin_of room p)) db.pins }

-- `if b: self.clear_pins()`
abbrev pub clear_pins_if : Bool → ℕ → Db → Db
clear_pins_if b room db = record db {
  pins = if b then select (λ p. not (pin_of room p)) db.pins else db.pins;
}

-- `if b: self.tags.clear()`
abbrev pub clear_tags_if : Bool → ℕ → Db → Db
clear_tags_if b room db = record db {
  room_tags = if b then select (λ t. not (t.0 == room)) db.room_tags else db.room_tags;
}

-- `_update_agent_service_status`, past the guard on the project, where its task can be sent.
unfoldable pub agent_service : ℕ → Bool → Option ℕ → Option ℕ → Option Project → Db → Db
agent_service now is_new old_user new_user project db =
    if is_new && is_some new_user
    then room_assigned now new_user project db
    else if not (is_some old_user) && is_some new_user
    then room_assigned now new_user project db
    else if is_some old_user && is_some new_user && not (same old_user new_user)
    then room_assigned now new_user project (room_closed always_sends now old_user project db).1
    else if is_some old_user && not (is_some new_user)
    then (room_closed always_sends now old_user project db).1
    else db

unfoldable pub update_agent_service_status : ℕ → Bool → Room → Db → Db
update_agent_service_status now is_new r db =
    if is_some r.queue
    then agent_service now is_new (user_in r.uuid db.rooms) r.user (project_of r.queue) db
    else db

-- The stamps that `save` sets, in order.
abbrev queued_on_add : ℕ → Bool → Room → Room
queued_on_add now adding r = if adding then record r { added_to_queue_at = some now } else r

abbrev assigned_now : ℕ → Bool → Room → Room
assigned_now now changed r =
    if is_some r.user && not (is_some r.user_assigned_at) || changed
    then record r { user_assigned_at = some now }
    else r

abbrev first_assigned : ℕ → Room → Room
first_assigned now r =
    if r.is_active && is_some r.user && not (is_some r.first_user_assigned_at)
    then record r {
      first_user_assigned_at = if is_some r.user_assigned_at then r.user_assigned_at else some now;
    }
    else r

abbrev queued_again : ℕ → Bool → Room → Room
queued_again now changed r =
    if changed && not (is_some r.user) then record r { added_to_queue_at = some now } else r

unfoldable pub stamped : ℕ → Instance → Room
stamped now i =
    queued_again now (user_has_changed i) (
      first_assigned now
        (assigned_now now (user_has_changed i) (queued_on_add now i.adding i.room)))

-- The constraint `unique_contact_queue_is_activetrue_room`.
abbrev collides : Room → Room → Bool
collides r x =
    x.is_active
    && not (x.uuid == r.uuid)
    && (is_some r.contact && same x.contact r.contact)
    && (is_some (queue_id r.queue) && same (queue_id x.queue) (queue_id r.queue))

abbrev pub violates_unique : Room → List Room → Bool
violates_unique r rooms = r.is_active && any (collides r) rooms

-- `old_queue.sector != self.queue.sector`, where the queue has changed.
abbrev pub sector_has_changed : Option Queue → Option Queue → Bool
sector_has_changed none q = false
sector_has_changed (some old) none = false
sector_has_changed (some old) (some q) =
    not (old.uuid == q.uuid) && not (old.sector.uuid == q.sector.uuid)

-- `super().save()` and what follows it. The pins are cleared already.
unfoldable pub write : ℕ → Instance → Room → Db → Result Instance × Db
write now i r db =
    if violates_unique r db.rooms
    then (err integrity_error, db)
    else let written = record db { rooms = put_room r db.rooms } in
      let tidy = clear_tags_if (sector_has_changed i.tracked_queue r.queue) r.uuid written in
      (ok (load r), update_agent_service_status now i.adding r tidy)

abbrev pub is_closed_row : Option Bool → Bool
is_closed_row (some false) = true
is_closed_row _ = false

unfoldable pub save : ℕ → Instance → Db → Result Instance × Db
save now i db =
    if not i.adding && is_closed_row (is_active_in i.room.uuid db.rooms)
    then (err closed_room, db)
    else write now i (stamped now i) (clear_pins_if (user_has_changed i) i.room.uuid db)

-- `_handle_close_tags`: the set of tags becomes the given one.
abbrev pub has_tag : ℕ → List (ℕ × ℕ) → ℕ → Bool
has_tag room tags tag = any (λ t. t.0 == room && t.1 == tag) tags

abbrev pub contains : List ℕ → ℕ → Bool
contains tags tag = any (λ t. t == tag) tags

-- `self.tags.add(*(set(tags) - current))`
pub add_tags : ℕ → List ℕ → List (ℕ × ℕ) → List (ℕ × ℕ)
add_tags room [] tags = tags
add_tags room (t ∷ ts) tags =
    add_tags room ts (if has_tag room tags t then tags else (room, t) ∷ tags)

pub handle_close_tags : ℕ → List ℕ → List (ℕ × ℕ) → List (ℕ × ℕ)
unfolding add_tags
handle_close_tags room new tags =
    select (λ t. not (t.0 == room) || contains new t.1) (add_tags room new tags)

abbrev pub with_close_tags : ℕ → Option (List ℕ) → Db → Db
with_close_tags room none db = db
with_close_tags room (some tags) db = record db {
  room_tags = handle_close_tags room tags db.room_tags;
}

-- `start_csat_flow`, on commit: outside a transaction it runs at once.
abbrev pub csat_or : Option Error → Room → Db → Result Instance × Db
csat_or none r db = (ok (load r), send (csat_flow r.uuid) db)
csat_or (some e) r db = (err e, db)

abbrev pub csat_if : Celery → Bool → Room → Db → Result Instance × Db
csat_if celery b r db = if b then csat_or (celery (csat_flow r.uuid) db) r db else (ok (load r), db)

abbrev pub csat_of : Celery → Option Queue → Room → Db → Result Instance × Db
csat_of celery none r db = (err attribute_error, db)
csat_of celery (some q) r db = csat_if celery (q.sector.is_csat_enabled && is_some r.user) r db

abbrev pub after_service : Celery → Room → Result (Unit {0}) × Db → Result Instance × Db
after_service celery r (err e, db) = (err e, db)
after_service celery r (ok a, db) = csat_of celery r.queue r db

-- `if self.user: ... InServiceStatusService.room_closed(self.user, project)`
abbrev pub end_service_of : Celery → ℕ → Room → Db → Result (Unit {0}) × Db
end_service_of celery now r db =
    if is_some r.user then room_closed celery now r.user (project_of r.queue) db else (ok tt, db)

-- What follows the transaction of `close`: what it raises leaves the room closed.
unfoldable pub after_close : Celery → ℕ → Room → Db → Result Instance × Db
after_close celery now r db = after_service celery r (end_service_of celery now r db)

abbrev pub closing : ℕ → String → Option ℕ → Instance → Instance
closing now end_by closed_by i = record i {
  room = record (i.room) {
    is_active = false;
    ended_at = some now;
    ended_by = end_by;
    closed_by = closed_by;
  };
}

unfoldable pub finish_close : Celery → ℕ → Db → Result Instance × Db → Result Instance × Db
finish_close celery now before (err e, db) = (err e, before)
finish_close celery now before (ok i, db) = after_close celery now i.room db

-- `tags` is `None` where no tags are passed on; an error in the transaction undoes it.
unfoldable pub close :
    Celery → ℕ → Option (List ℕ) → String → Option ℕ → Instance → Db → Result Instance × Db
close celery now tags end_by closed_by i db = finish_close celery now db (
    save now (closing now end_by closed_by i)
      (clear_pins i.room.uuid (with_close_tags i.room.uuid tags db)))
