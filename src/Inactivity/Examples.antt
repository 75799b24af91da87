-- ===== src/Inactivity/Examples.antt =====
-- Tests of chats/apps/rooms/usecases/inactivity.py, and its theorems at a room that waits for its contact.
use chats_engine.Prelude.{ℕ, ◌≡◌, ◌≤◌, refl, true, false, some, List, [], ◌∷◌, count_if, select}
use chats_engine.Store.{Queue, Room, Db, Result, ok}
use chats_engine.Store.Tables.{find_room, put_room}
use chats_engine.Store.Samples.{room, db}
use chats_engine.InService.{always_sends, room_closed, end_service, get_or_create_status_type}
use chats_engine.Rooms.{
  close, finish_close, after_close, save, write, stamped, update_agent_service_status,
  agent_service, has_tag,
}
use chats_engine.Inactivity.{
  State, is_24h_valid, create_message, send_silent, or_zero, eligible_warn, eligible_close,
  due_for_warning, due_for_closure,
}
use chats_engine.Inactivity.Service.{
  warn_room, warn_loop, warn_inactive_rooms, close_room, close_inactive_rooms,
}
use chats_engine.Inactivity.Reset.{is_flagged, reset_inactivity-clears}
use chats_engine.Inactivity.Service.{reset_inactivity}
use chats_engine.Inactivity.Caps.{runs-cap}
use chats_engine.Inactivity.Warned.{warn_inactive_rooms-others}
use chats_engine.Inactivity.Closures.{Told, close_room-closes}

-- Room 50, where the agent spoke last, at the time 0.
abbrev silent : Room
silent = record (room 50 (some 7)) { last_message_user = some 7; last_interaction = some 0 }

abbrev rooms : List Room
rooms = silent ∷ room 51 (some 8) ∷ []

abbrev state : State
state = record { db = record db { rooms = rooms }; messages = []; valid_24h = [] }

abbrev start : Queue → Db → Result (Unit {0}) × Db
start q d = (ok tt, d)

warned_once : (warn_inactive_rooms 6000000 10 state).0 ≡ 1
unfolding warn_inactive_rooms warn_loop warn_room send_silent create_message is_24h_valid
warned_once = refl

runs-cap_example :
    ((warn_inactive_rooms 6000000 10 state).0 ≤ 10)
    × ((warn_inactive_rooms 6000000 10 state).0
        ≤ count_if (due_for_warning 6000000) (select eligible_warn rooms))
    × (or_zero (close_inactive_rooms always_sends true start 6000000 10 state).0 ≤ 10)
    × (or_zero (close_inactive_rooms always_sends true start 6000000 10 state).0
        ≤ count_if (due_for_closure 6000000) (select eligible_close rooms))
runs-cap_example = runs-cap always_sends true start 6000000 10 state

warn_inactive_rooms-others_example :
    find_room 51 (warn_inactive_rooms 6000000 10 state).1.db.rooms ≡ some (room 51 (some 8))
unfolding find_room
warn_inactive_rooms-others_example =
    warn_inactive_rooms-others 6000000 10 51 (room 51 (some 8)) state (refl, (refl, tt)) refl refl

quiet : (q : Queue) (d : Db) → Told d (start q d).1
quiet q d = record { rooms = refl; tags = refl }

abbrev after : State
after = (close_room always_sends true start 16000000 silent state).1

closed : close_room always_sends true start 16000000 silent state ≡ (some true, after)
unfolding close_room send_silent create_message is_24h_valid find_room close finish_close
    after_close save write stamped room_closed end_service get_or_create_status_type
    update_agent_service_status agent_service put_room
closed = refl

close_room-closes_example :
    (y : Room) × (find_room 50 after.db.rooms ≡ some y)
    × (y.is_active ≡ false)
    × (y.ended_at ≡ some 16000000)
    × (y.ended_by ≡ "inactivity")
    × ((tag : ℕ) → has_tag 50 after.db.room_tags tag ≡ false)
close_room-closes_example =
    close_room-closes always_sends true start quiet 16000000 silent state after closed

-- A room that was warned, whose contact replies.
abbrev flagged : Room
flagged = record silent { is_inactive = true }

abbrev flagged_state : State
flagged_state = record state { db = record db { rooms = flagged ∷ [] } }

reset_inactivity-clears_example :
    ((reset_inactivity flagged flagged_state).0 ≡ true)
    × (count_if (is_flagged 50) (reset_inactivity flagged flagged_state).1.db.rooms ≡ 0)
reset_inactivity-clears_example = reset_inactivity-clears flagged flagged_state
