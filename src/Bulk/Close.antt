-- ===== src/Bulk/Close.antt =====
-- chats/apps/api/v1/rooms/services/bulk_close_service.py, BulkCloseService.
-- The rooms are loaded once, before the first batch.
pub mod Turns
use chats_engine.Prelude.{
  ℕ, String, Bool, Option, none, some, List, [], ◌∷◌, ◌==◌, if◌then◌else◌, is_some,
}
use chats_engine.Store.{Room, metrics_task, Db, does_not_exist, Result, ok, err}
use chats_engine.Store.Tables.{find_room}
use chats_engine.Store.Action.{Action, Done, raise, attempt, when, ◌>>=◌, ◌>>◌, bind}
use chats_engine.Rooms.{Instance, load, close}
use chats_engine.Queues.Router.{Turn}
use chats_engine.Bulk.{Outside, exception, BulkResult, deliver, notify_queue, notify_user}
use chats_engine.Bulk.Loop.{Outcome, succeeded, failed, run_batches}

-- `room_tags_map.get(str(room.uuid), [])`
abbrev pub tags_of : List (ℕ × List ℕ) → ℕ → List ℕ
tags_of [] room = []
tags_of (t ∷ ts) room = if t.0 == room then t.1 else tags_of ts room

abbrev refreshed : Option Room → (Room → Action Done) → Action Done
refreshed none k = raise does_not_exist
refreshed (some r) k = k r

module _ (o : Outside) where
  -- The three steps that are each on their own.
  abbrev pub announce_if : Bool → Room → Action Done
  announce_if has_user r = do
    attempt (notify_queue o r "rooms.close")
    when has_user (attempt (notify_user o r "rooms.close" none))
    attempt (deliver o (metrics_task r.uuid))

  -- `room.refresh_from_db()`, and the steps.
  pub post_close : ℕ → Action Done
  post_close room db = refreshed (find_room room db.rooms) (λ r. announce_if (is_some r.user) r) db

  abbrev pub closed_outcome : Room → Result Instance × Db → Result Outcome × Db
  closed_outcome r (err e, db) = (ok (failed (exception r.uuid e)), db)
  closed_outcome r (ok i, db) =
      bind (post_close r.uuid db) (λ _ db'. (ok (succeeded (i.room.queue ∷ [])), db'))

  unfoldable pub close_one : List (ℕ × List ℕ) → String → Option ℕ → ℕ → Room → Action Outcome
  close_one room_tags end_by closed_by now r db =
      closed_outcome r
        (close o.fails now (some (tags_of room_tags r.uuid)) end_by closed_by (load r) db)

  pub close_rooms :
      (ℕ → Turn) → ℕ → List Room → List (ℕ × List ℕ) → String → Option ℕ → Action BulkResult
  close_rooms world size rooms room_tags end_by closed_by =
      run_batches o (close_one room_tags end_by closed_by) world (λ batch db. batch) size rooms
