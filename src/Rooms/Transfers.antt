-- ===== src/Rooms/Transfers.antt =====
-- The transfers of a room: `create_transfer_json` (chats/apps/rooms/utils.py), and
-- `add_transfer_to_history` and `mark_notes_as_non_deletable` (chats/apps/rooms/models.py).
use chats_engine.Prelude.{
  ℕ, String, false, not, ◌&&◌, Option, none, some, ◌∷◌, ◌==◌, if◌then◌else◌, map,
}
use chats_engine.Store.{
  Queue, RoomNote, Party, nobody, user_data, queue_data, Transfer, Db, closed_room, ok, err,
}
use chats_engine.Store.Action.{Action, Done, modify}
use chats_engine.Rooms.{
  Instance, user_has_changed, is_active_in, clear_pins_if, clear_tags_if, sector_has_changed,
  update_agent_service_status, is_closed_row, stamped,
}

abbrev pub of_user : Option ℕ → Party
of_user none = nobody
of_user (some u) = user_data u

abbrev pub of_queue : Option Queue → Party
of_queue none = nobody
of_queue (some q) = queue_data q.uuid

abbrev pub create_transfer_json : String → Party → Party → ℕ → Transfer
create_transfer_json action from_ to requested_by = record {
  action = action;
  from_ = from_;
  to = to;
  requested_by = some (user_data requested_by);
}

-- The row of the transfer, with what the overridden `save` does beside the two columns.
abbrev add_row : ℕ → Transfer → Instance → Db → Db
add_row now t i db =
    let cleared = clear_pins_if (user_has_changed i) i.room.uuid db in
    let written = record cleared { transfers = (i.room.uuid, t) ∷ cleared.transfers } in
    update_agent_service_status now i.adding (stamped now i)
      (clear_tags_if (sector_has_changed i.tracked_queue i.room.queue) i.room.uuid written)

-- `self.save(update_fields=["full_transfer_history", "transfer_history"])`: the stamps stay in
-- memory, and the tracker of the user and the queue stays as it is.
unfoldable pub add_transfer_to_history : ℕ → Transfer → Instance → Action Instance
add_transfer_to_history now t i db =
    if not i.adding && is_closed_row (is_active_in i.room.uuid db.rooms)
    then (err closed_room, db)
    else (ok (record i { room = stamped now i }), add_row now t i db)

abbrev lock_note : ℕ → RoomNote → RoomNote
lock_note room n = if n.room == room then record n { is_deletable = false } else n

-- `self.notes.update(is_deletable=False)`
abbrev pub mark_notes_as_non_deletable : ℕ → Action Done
mark_notes_as_non_deletable room =
    modify (λ db. record db { notes = map (lock_note room) db.notes })
