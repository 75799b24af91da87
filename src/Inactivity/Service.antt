-- ===== src/Inactivity/Service.antt =====
-- The runs of `InactivityService` (chats/apps/rooms/usecases/inactivity.py): warnings, closures and
-- resets.
use chats_engine.Prelude.{
  ℕ, suc, String, Bool, true, false, not, ◌&&◌, ◌||◌, Option, none, some, List, [], ◌∷◌, leb, ◌==◌,
  if◌then◌else◌, select, str_eq,
}
use chats_engine.Store.{
  Queue, Permission, Room, queue_event, permission_event, metrics_task, Db, Result, ok, err,
}
use chats_engine.Store.Tables.{find_room, send, send_if}
use chats_engine.InService.{find_permission, Celery}
use chats_engine.Rooms.{Instance, load, close}
use chats_engine.Inactivity.{
  State, create_message, update_rows, send_silent, config_of, or_empty, eligible_warn,
  eligible_close, due_for_warning, due_for_closure, inactive_warning, inactive_close,
}

-- `room.notify_inactivity()`, whose exceptions are passed over.
abbrev pub to_permission : ℕ → String → Option Permission → Db → Db
to_permission room action none db = db
to_permission room action (some p) db = send (permission_event p.uuid room action) db

abbrev pub inactivity_event : ℕ → Option ℕ → Option Queue → Db → Db
inactivity_event room user none db = db
inactivity_event room none (some q) db = send (queue_event q.uuid room "rooms.inactivity") db
inactivity_event room (some user) (some q) db =
    to_permission room "rooms.inactivity"
      (find_permission user q.sector.project.uuid db.permissions) db

abbrev pub notify_inactivity : Room → State → State
notify_inactivity r s = record s { db = inactivity_event r.uuid r.user r.queue s.db }

abbrev pub mark_inactive : ℕ → State → State
mark_inactive room s =
    update_rows (λ r. r.uuid == room && not r.is_inactive && r.is_active)
      (λ r. record r { is_inactive = true }) s

abbrev pub warning_text : Room → String
warning_text r = elim (config_of r) [ none ↦ "" | some c ↦ or_empty c.message_timeout_text ]

-- `_warn_room`
abbrev pub warned_after : Room → Bool × State → Bool × State
warned_after r (sent, s) =
    if not sent && not (str_eq (warning_text r) "")
    then (false, s)
    else (true, notify_inactivity r (mark_inactive r.uuid s))

unfoldable pub warn_room : ℕ → Room → State → Bool × State
warn_room now r s = warned_after r (send_silent now r (warning_text r) r.user inactive_warning s)

-- `warn_inactive_rooms`: the loop over the rooms that the query has found.
unfoldable pub warn_loop : ℕ → ℕ → ℕ → List Room → State → ℕ × State
warn_loop now most warned [] s = (warned, s)
warn_loop now most warned (r ∷ rs) s =
    let again = warn_loop now most warned rs s in
    let (did, s') = warn_room now r s in
    let next = warn_loop now most (if did then suc warned else warned) rs s' in
    if leb most warned then (warned, s) else if due_for_warning now r then next else again

unfoldable pub warn_inactive_rooms : ℕ → ℕ → State → ℕ × State
warn_inactive_rooms now most s = warn_loop now most 0 (select eligible_warn s.db.rooms) s

-- `reset_inactivity`
unfoldable pub reset_inactivity : Room → State → Bool × State
reset_inactivity r s = if not r.is_active || not r.is_inactive then (false, s) else (
  true,
  notify_inactivity r (
      update_rows (λ x. x.uuid == r.uuid && x.is_active) (λ x. record x { is_inactive = false }) s),
)

abbrev pub close_feedback : String
close_feedback = "{\"method\": \"rc\", \"content\": {\"action\": \"automatic_close\"}}"

abbrev pub closing_text : Room → String
closing_text r = elim (config_of r) [ none ↦ "" | some c ↦ or_empty c.close_room_message_text ]

-- The notifications of a closure, that raise, and are passed over, where there is no queue.
abbrev pub notify_closed : ℕ → Option ℕ → Option Queue → Db → Db
notify_closed room user none db = db
notify_closed room none (some q) db = send (queue_event q.uuid room "rooms.close") db
notify_closed room (some user) (some q) db =
    to_permission room "rooms.close" (find_permission user q.sector.project.uuid db.permissions)
      (send (queue_event q.uuid room "rooms.close") db)

module _ (celery : Celery) (calc_metrics : Bool) (start : Queue → Db → Result (Unit {0}) × Db) where
  abbrev pub start_routing : Option Queue → Db → Db
  start_routing none db = db
  start_routing (some q) db = (start q db).1

  -- What follows `room.close`.
  abbrev pub closed_after : State → Result Instance × Db → Option Bool × State
  closed_after s (err e, db) = (some false, record s { db = db })
  closed_after s (ok i, db) = (
    some true,
    record s {
      db = start_routing i.room.queue (
          send_if calc_metrics (metrics_task i.room.uuid)
            (notify_closed i.room.uuid i.room.user i.room.queue db));
    },
  )

  -- `_close_room`, with the messages first; `none` is an exception that ends the run. `close` is
  -- called without tags, so with its default, which is the empty list.
  unfoldable pub close_room : ℕ → Room → State → Option Bool × State
  close_room now r s =
      let told = (send_silent now r (closing_text r) r.user inactive_close s).1 in
      let noted = (create_message now r none close_feedback none told).1 in
      elim (find_room r.uuid noted.db.rooms) [
        | none ↦ (none, noted)
        | some x ↦ closed_after noted (
            close celery now (some []) "inactivity" x.user
              (record (load x) { room = record x { automatic_closed = true } }) noted.db)
      ]

  unfoldable pub close_loop : ℕ → ℕ → ℕ → List Room → State → Option ℕ × State
  close_loop now most closed [] s = (some closed, s)
  close_loop now most closed (r ∷ rs) s =
      if leb most closed
      then (some closed, s)
      else if not (due_for_closure now r)
      then close_loop now most closed rs s
      else elim (close_room now r s).0 [
        | none ↦ (none, (close_room now r s).1)
        | some did ↦
            close_loop now most (if did then suc closed else closed) rs (close_room now r s).1
      ]

  unfoldable pub close_inactive_rooms : ℕ → ℕ → State → Option ℕ × State
  close_inactive_rooms now most s = close_loop now most 0 (select eligible_close s.db.rooms) s
