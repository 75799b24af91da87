-- ===== src/Bulk/Take.antt =====
-- chats/apps/api/v1/rooms/services/bulk_take_service.py, BulkTakeService: rooms of the queue go to
-- one user. Nothing is undone where a step fails.
pub mod Turns
pub mod Keeping
use chats_engine.Prelude.{ℕ, Option, none, some, [], ◌∷◌, List}
use chats_engine.Store.{Room, Db, Result, ok, err}
use chats_engine.Store.Action.{Action, Done, pure, attempt, ◌>>=◌, ◌>>◌}
use chats_engine.Rooms.{Instance, load, save}
use chats_engine.Rooms.Transfers.{of_user, of_queue, create_transfer_json, add_transfer_to_history}
use chats_engine.Queues.Router.{Turn}
use chats_engine.Bulk.{
  Outside, already_assigned, exception, BulkResult, create_room_feedback_message, notify_queue,
  update_ticket, send_automatic_message, add_queue_metrics,
}
use chats_engine.Bulk.Loop.{Outcome, succeeded, failed, rooms_in, run_batches}

abbrev pub taken : ℕ → Instance → Instance
taken user i = record i { room = record (i.room) { user = some user } }

module _ (o : Outside) (now : ℕ) where
  -- The steps whose exceptions fail the room.
  unfoldable pub take_room : ℕ → Instance → Action Instance
  take_room user i = do
    j ← save now (taken user i)
    k ←
        add_transfer_to_history now
          (create_transfer_json "pick" (of_queue i.room.queue) (of_user (some user)) user) j
    create_room_feedback_message o k.room
    pure k

  pub post_take : Room → Action Done
  post_take r = do
    attempt (notify_queue o r "rooms.update")
    attempt (send_automatic_message o r)
    attempt (add_queue_metrics now r)
    attempt (update_ticket o r)

  abbrev pub after_take : Room → Result Instance × Db → Result Outcome × Db
  after_take r (err e, db) = (ok (failed (exception r.uuid e)), db)
  after_take r (ok i, db) = (ok (succeeded (i.room.queue ∷ [])), (post_take i.room db).1)

  abbrev pub take_free : ℕ → Room → Option ℕ → Action Outcome
  take_free user r (some other) db = (ok (failed (already_assigned r.uuid (some other))), db)
  take_free user r none db = after_take r (take_room user (load r) db)

  unfoldable pub take_one : ℕ → Room → Action Outcome
  take_one user r = take_free user r r.user

pub take : Outside → (ℕ → Turn) → ℕ → List ℕ → ℕ → Action BulkResult
take o world size rooms user = run_batches o (λ now. take_one o now user) world rooms_in size rooms
