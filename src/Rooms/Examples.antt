-- ===== src/Rooms/Examples.antt =====
-- Tests of `Room` (chats/apps/rooms/models.py), and its theorems at a few rooms.
use chats_engine.Prelude.{◌≡◌, refl, true, false, some, none, [], ◌∷◌, count_if, arith}
use chats_engine.Store.{Db, ok, err, closed_room}
use chats_engine.Store.Tables.{find_room, put_room}
use chats_engine.Store.Samples.{queue, room, ended, db}
use chats_engine.InService.{always_sends, room_closed, end_service, get_or_create_status_type}
use chats_engine.Rooms.{
  Instance, load, stamped, save, write, update_agent_service_status, agent_service, closing, close,
  finish_close, after_close, pin_of, has_tag,
}
use chats_engine.Rooms.Pinning.{pin}
use chats_engine.Rooms.Saving.{is_stamped, save-stamps, save_existing-statuses}
use chats_engine.Rooms.Closing.{close-ends, close-tags}
use chats_engine.Rooms.Pins.{PinsOk}
use chats_engine.Rooms.History.{Reach, here, next, closes, pins, Reach-PinsOk, Reach-closed}

-- Room 50 goes from agent 7 to agent 8.
abbrev moved : Instance
moved = record (load (room 50 (some 7))) { room = room 50 (some 8) }

abbrev moved_db : Db
moved_db = (save 99 moved db).1

moved-save : save 99 moved db ≡ (ok (load (stamped 99 moved)), moved_db)
unfolding save write find_room stamped
moved-save = refl

moved_pins : moved_db.pins ≡ []
unfolding save write find_room put_room update_agent_service_status agent_service stamped
moved_pins = refl

save-stamps_example :
    let r = stamped 99 moved in
    (find_room 50 moved_db.rooms ≡ some r)
    × (r.user ≡ some 8)
    × (is_stamped r ≡ true)
    × (r.first_user_assigned_at ≡ r.first_user_assigned_at)
    × (r.user_assigned_at ≡ some 99)
    × (r.added_to_queue_at ≡ some 50)
    × (count_if (pin_of 50) moved_db.pins ≡ 0)
save-stamps_example = save-stamps 99 moved (load (stamped 99 moved)) db moved_db moved-save

save_existing-statuses_example : (moved_db.statuses ≡ []) × (moved_db.outbox ≡ [])
save_existing-statuses_example = save_existing-statuses 99 moved db refl

shut : save 99 (load (ended (room 54 (some 7)))) db ≡ (err closed_room, db)
unfolding save find_room
shut = refl

abbrev open_room : Instance
open_room = load (room 50 (some 7))

abbrev closed_db : Db
closed_db = (close always_sends 99 (some (4 ∷ [])) "agent" (some 7) open_room db).1

abbrev left : Instance
left = load (stamped 99 (closing 99 "agent" (some 7) open_room))

closed-close :
    close always_sends 99 (some (4 ∷ [])) "agent" (some 7) open_room db ≡ (ok left, closed_db)
unfolding close finish_close after_close save write find_room stamped room_closed end_service
    get_or_create_status_type update_agent_service_status agent_service put_room
closed-close = refl

close-ends_example :
    (find_room 50 closed_db.rooms ≡ some left.room)
    × (left ≡ load left.room)
    × (left.room.is_active ≡ false)
    × (left.room.ended_at ≡ some 99)
    × (left.room.ended_by ≡ "agent")
    × (left.room.closed_by ≡ some 7)
    × (left.room.user ≡ some 7)
    × (left.room.queue ≡ some queue)
    × (count_if (pin_of 50) closed_db.pins ≡ 0)
close-ends_example =
    close-ends always_sends 99 (some (4 ∷ [])) "agent" (some 7) open_room db {j = left}
      {db' = closed_db} closed-close

close-tags_example : has_tag 50 closed_db.room_tags 4 ≡ true
close-tags_example =
    close-tags always_sends 99 (4 ∷ []) "agent" (some 7) open_room db {j = left} {db' = closed_db}
      closed-close refl 50 4

abbrev pinned : Db
pinned = (pin 3 8 (room 51 (some 8)) db).1

abbrev pinned_and_closed : Db
pinned_and_closed = (close always_sends 99 none "agent" (some 7) open_room pinned).1

history : Reach 3 db pinned_and_closed
unfolding find_room
history =
    next (next here (pins 8 (room 51 (some 8)) refl))
      (closes always_sends 99 none "agent" (some 7) open_room refl)

PinsOk-db : PinsOk 3 db
unfolding find_room
PinsOk-db = record { within = λ u p. ground arith; rows = (refl, tt) }

Reach-PinsOk_example : PinsOk 3 pinned_and_closed
Reach-PinsOk_example = Reach-PinsOk 3 PinsOk-db history

Reach-closed_example : find_room 54 pinned_and_closed.rooms ≡ some (ended (room 54 (some 7)))
Reach-closed_example =
    Reach-closed 3 54 (ended (room 54 (some 7))) db pinned_and_closed (unfold find_room in refl)
      refl history
