-- ===== src/Rooms/Closing.antt =====
-- `Room.close` (chats/apps/rooms/models.py).
use chats_engine.Prelude.{
  ℕ, ◌≡◌, refl, ap, sym, subst, ◌∙◌, ◌⊎◌, inl, inr, String, Bool, true, false, not, ◌&&◌,
  Bool-cases, Option, none, some, List, arith, ◌==◌, if◌then◌else◌, count_if,
}
use chats_engine.Store.{Room, Db, closed_room, Result, ok, err}
use chats_engine.Store.Tables.{find_room, put_room, find_room-put_room_self}
use chats_engine.InService.{Celery}
use chats_engine.InService.Frame.{SameRooms}
use chats_engine.Rooms.{
  clear_pins_if, clear_tags_if, sector_has_changed, Instance, load, user_has_changed, pin_of,
  stamped, closing, with_close_tags, clear_pins, finish_close, close, has_tag, is_closed_row,
  is_active_in, handle_close_tags, contains,
}
use chats_engine.Rooms.Saving.{
  count_cleared, stamped-user, updated, updated-SameRooms, save-refused, save-inactive, refuses,
  stamped-uuid,
}
use chats_engine.Rooms.Tags.{has-handle_close_tags}
use chats_engine.Rooms.Finishing.{Ends, after_close-Follows}

closed_row :
    (now : ℕ) (end_by : String) (closed_by : Option ℕ) (i : Instance)
    → let r = stamped now (closing now end_by closed_by i) in
      (r.is_active ≡ false)
      × (r.ended_at ≡ some now)
      × (r.ended_by ≡ end_by)
      × (r.closed_by ≡ closed_by)
      × (r.queue ≡ i.room.queue)
unfolding stamped
closed_row now end_by closed_by i = ground arith

-- What a closure leaves where its transaction has gone through: the row of the instance is closed, with
-- the time and the parties of the closure and the user and queue that the instance had; the room has no
-- pin.
pub record Ended (now : ℕ) (end_by : String) (closed_by : Option ℕ) (i : Instance) (row : Room)
    (db' : Db) : Type 0 where
  pub found : find_room i.room.uuid db'.rooms ≡ some row
  pub inactive : row.is_active ≡ false
  pub at : row.ended_at ≡ some now
  pub by : row.ended_by ≡ end_by
  pub who : row.closed_by ≡ closed_by
  pub user : row.user ≡ i.room.user
  pub queue : row.queue ≡ i.room.queue
  pub pins : count_if (pin_of i.room.uuid) db'.pins ≡ 0

module _ (celery : Celery) (now : ℕ) (tags : Option (List ℕ)) (end_by : String)
    (closed_by : Option ℕ) (i : Instance) (db : Db) where
  abbrev c : Instance
  c = closing now end_by closed_by i

  abbrev start : Db
  start = clear_pins i.room.uuid (with_close_tags i.room.uuid tags db)

  abbrev pub closed_row_of : Room
  closed_row_of = stamped now c

  abbrev pub saved : Db
  saved = updated now c start

  abbrev pub was_closed : Bool
  was_closed = not i.adding && is_closed_row (is_active_in i.room.uuid db.rooms)

  -- A closure of a room whose row is closed raises and changes nothing. Any other has saved the closed
  -- room, on the database without the room's pins, and if it raises then it raises late.
  abbrev pub Closure : Result Instance × Db → Type 0
  Closure (x, db') =
      ((was_closed ≡ true) × (x ≡ err closed_room) × (db' ≡ db))
      ⊎ ((was_closed ≡ false) × Ends celery closed_row_of x × SameRooms saved db')

  start_rooms : db.rooms ≡ start.rooms
  start_rooms = with_tags tags
    where
      with_tags : (t : Option (List ℕ)) → db.rooms ≡ (with_close_tags i.room.uuid t db).rooms
      with_tags none = refl
      with_tags (some t) = refl

  refuses_too : {b : Bool} → was_closed ≡ b → refuses now c start ≡ b
  refuses_too h =
      ap (λ rooms. not i.adding && is_closed_row (is_active_in i.room.uuid rooms)) (sym start_rooms)
      ∙ h

  pub close-Closure : Closure (close celery now tags end_by closed_by i db)
  unfolding close finish_close
  close-Closure = elim (Bool-cases was_closed) [
    | inl shut ↦ rw (save-refused now c start (refuses_too shut)) (inl (shut, refl, refl))
    | inr open_ ↦
        let inactive = (closed_row now end_by closed_by i).0 in
        rw (save-inactive now c start (refuses_too open_) inactive) (
          let (ends, rooms) = after_close-Follows celery closed_row_of now saved in
          inr (open_, ends, rooms))
  ]

  start_pins : count_if (pin_of i.room.uuid) start.pins ≡ 0
  start_pins = count_cleared i.room.uuid (with_close_tags i.room.uuid tags db).pins

  kept_pins :
      (b : Bool) → count_if (pin_of i.room.uuid) (clear_pins_if b i.room.uuid start).pins ≡ 0
  kept_pins true = count_cleared i.room.uuid start.pins
  kept_pins false = start_pins

  pub saved-Ended :
      {db' : Db} → SameRooms saved db' → Ended now end_by closed_by i closed_row_of db'
  saved-Ended {db'} s =
      let fields = closed_row now end_by closed_by i in
      let after : db'.rooms ≡ put_room closed_row_of start.rooms =
        s.rooms ∙ (updated-SameRooms now c start).rooms in
      record {
        found =
            subst (λ u. find_room u db'.rooms ≡ some closed_row_of) (stamped-uuid now c)
              (rw after (find_room-put_room_self closed_row_of start.rooms));
        inactive = fields.0;
        at = fields.1;
        by = fields.2;
        who = fields.3;
        user = stamped-user now c;
        queue = fields.4;
        pins = rw s.pins (rw (updated-SameRooms now c start).pins (kept_pins (user_has_changed c)));
      }

  close-saved :
      {j : Instance} {db' : Db}
      → close celery now tags end_by closed_by i db ≡ (ok j, db')
      → (j ≡ load closed_row_of) × SameRooms saved db'
  close-saved {j} {db'} h = elim (subst Closure h close-Closure) [
    | inl (_, raised, _) ↦ absurd (ground (arith, raised))
    | inr (_, is, s) ↦ (is, s)
  ]

  -- After a closure that succeeds, the room's row is closed, with the time and the parties of the
  -- closure and the user and queue that the instance had; the room has no pin. The instance that
  -- remains is the one loaded from that row.
  pub close-ends :
      {j : Instance} {db' : Db}
      → close celery now tags end_by closed_by i db ≡ (ok j, db')
      → (find_room i.room.uuid db'.rooms ≡ some j.room)
        × (j ≡ load j.room)
        × (j.room.is_active ≡ false)
        × (j.room.ended_at ≡ some now)
        × (j.room.ended_by ≡ end_by)
        × (j.room.closed_by ≡ closed_by)
        × (j.room.user ≡ i.room.user)
        × (j.room.queue ≡ i.room.queue)
        × (count_if (pin_of i.room.uuid) db'.pins ≡ 0)
  close-ends h =
      let (is, same_tables) = close-saved h in
      let k = saved-Ended same_tables in
      rw is (k.found, refl, k.inactive, k.at, k.by, k.who, k.user, k.queue, k.pins)

module _ (celery : Celery) (now : ℕ) (new : List ℕ) (end_by : String) (closed_by : Option ℕ)
    (i : Instance) (db : Db) (stays : sector_has_changed i.tracked_queue i.room.queue ≡ false) where
  kept :
      (b : Bool)
      → b ≡ false
      → (clear_tags_if b
          (closed_row_of celery now (some new) end_by closed_by i db).uuid
          (with_close_tags i.room.uuid (some new) db)).room_tags
        ≡ handle_close_tags i.room.uuid new db.room_tags
  kept true e = absurd (ground (arith, e))
  kept false e = refl

  pub saved-tags :
      {db' : Db}
      → SameRooms (saved celery now (some new) end_by closed_by i db) db'
      → (r tag : ℕ)
      → has_tag r db'.room_tags tag
        ≡ (if r == i.room.uuid then contains new tag else has_tag r db.room_tags tag)
  saved-tags s r tag =
      let ended = c celery now (some new) end_by closed_by i db in
      let begun = start celery now (some new) end_by closed_by i db in
      let queue_kept = (closed_row now end_by closed_by i).4 in
      ap (λ t. has_tag r t tag)
        (s.room_tags
          ∙ (updated-SameRooms now ended begun).room_tags
          ∙ kept (sector_has_changed i.tracked_queue (stamped now ended).queue)
              (ap (sector_has_changed i.tracked_queue) queue_kept ∙ stays))
      ∙ has-handle_close_tags i.room.uuid r tag new db.room_tags

-- After a closure that succeeds, of a room that has stayed in its sector, the room has exactly the
-- given tags, and every other room has the tags it had.
pub close-tags :
    (celery : Celery) (now : ℕ) (new : List ℕ) (end_by : String) (closed_by : Option ℕ)
    (i : Instance) (db : Db)
    → {j : Instance} {db' : Db} → close celery now (some new) end_by closed_by i db ≡ (ok j, db')
    → sector_has_changed i.tracked_queue i.room.queue ≡ false
    → (r tag : ℕ)
    → has_tag r db'.room_tags tag
      ≡ (if r == i.room.uuid then contains new tag else has_tag r db.room_tags tag)
close-tags celery now new end_by closed_by i db h stays r tag =
    saved-tags celery now new end_by closed_by i db stays
      (close-saved celery now (some new) end_by closed_by i db h).1 r tag
