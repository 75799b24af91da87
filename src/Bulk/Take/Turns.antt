-- ===== src/Bulk/Take/Turns.antt =====
-- The turn of a room in `BulkTakeService.take`
-- (chats/apps/api/v1/rooms/services/bulk_take_service.py).
use chats_engine.Prelude.{
  ℕ, ◌≡◌, refl, ap, sym, ◌∙◌, ◌⊎◌, inl, inr, true, Option, none, some, [], ◌∷◌, is_some,
}
use chats_engine.Store.{
  Queue, Room, feedback, Transfer, Db, closed_room, integrity_error, Error, Result, ok, err,
}
use chats_engine.Store.Tables.{put_room}
use chats_engine.Store.Action.{pure, ◌>>=◌, ◌>>◌}
use chats_engine.Rooms.{Instance, load, stamped}
use chats_engine.Rooms.Saving.{
  save_cases, updated, updated-SameRooms, stamped-uuid, stamped-user, stamped-queue,
}
use chats_engine.Rooms.Transfers.{of_user, of_queue, create_transfer_json, add_transfer_to_history}
use chats_engine.Bulk.{
  Outside, already_assigned, exception, create_room_feedback_message, notify_queue, update_ticket,
  send_automatic_message, add_queue_metrics,
}
use chats_engine.Bulk.Loop.{Outcome, succeeded, failed}
use chats_engine.Bulk.Frame.{
  Keeps, Sends-Keeps, Steps, Good, >>=-Steps, sent-Steps, pure-Steps, deliver-Sends,
  notify_queue-Sends, update_ticket-Sends, send_automatic_message-Sends,
}
use chats_engine.Bulk.Transfer.Rows.{Of, add_transfer_to_history-Steps, metrics-Keeps}
use chats_engine.Bulk.Transfer.Atomic.{OnlyMoved, put-OnlyMoved}
use chats_engine.Bulk.Take.{taken, take_room, post_take, after_take, take_free, take_one}

-- The rows after a turn: as they were, or the room's alone has the user.
abbrev pub MaybeMoved : ℕ → Room → Db → Db → Type 0
MaybeMoved user r before db =
    (db.rooms ≡ before.rooms) ⊎ OnlyMoved (some user) r.queue r.uuid before db

-- How the turn of a room ends.
abbrev pub Takes : ℕ → Room → Db → Result Outcome × Db → Type 0
Takes user r before (x, db) =
    ((x ≡ ok (failed (already_assigned r.uuid r.user))) × (is_some r.user ≡ true) × (db ≡ before))
    ⊎ (((e : Error) × (x ≡ ok (failed (exception r.uuid e)))
          × (r.user ≡ none)
          × MaybeMoved user r before db)
        ⊎ ((x ≡ ok (succeeded (r.queue ∷ [])))
            × (r.user ≡ none)
            × OnlyMoved (some user) r.queue r.uuid before db))

module _ (o : Outside) (now : ℕ) where
  then_recorded :
      (u : Option ℕ) (q : Option Queue) (t : Transfer) (j : Instance)
      → Of u q j
      → Steps
          (Of u q)
          (do k ← add_transfer_to_history now t j; create_room_feedback_message o k.room; pure k)
  then_recorded u q t j is =
      >>=-Steps (Of u q) (Of u q) _ _ (add_transfer_to_history-Steps u q now t j is) (λ k is'.
        sent-Steps (Of u q) (create_room_feedback_message o k.room) (pure k)
          (deliver-Sends o (feedback k.room.uuid "rt")) (pure-Steps (Of u q) k is'))

  post_take-Keeps : (r : Room) → Keeps (post_take o now r)
  unfolding post_take
  post_take-Keeps r db =
      let a = (notify_queue o r "rooms.update" db).1 in
      let b = (send_automatic_message o r a).1 in
      let c = (add_queue_metrics now r b).1 in
      Sends-Keeps (update_ticket o r) (update_ticket-Sends o r) c
      ∙ metrics-Keeps now r b
      ∙ Sends-Keeps (send_automatic_message o r) (send_automatic_message-Sends o r) a
      ∙ Sends-Keeps (notify_queue o r "rooms.update") (notify_queue-Sends o r "rooms.update") db

  -- The end of a turn whose save has written the row.
  saved-Takes :
      (user : ℕ) (r row : Room) (before d : Db) (x : Result Instance × Db)
      → r.user ≡ none
      → row.uuid ≡ r.uuid
      → Of (some user) r.queue (load row)
      → d.rooms ≡ put_room row before.rooms
      → (x.1.rooms ≡ d.rooms) × Good (Of (some user) r.queue) x.0
      → Takes user r before (after_take o now r x)
  saved-Takes user r row before d (ok i, db) free at (e, f) wrote (kept, good) = inr (
      inr (
        ap (λ q. ok (succeeded (q ∷ []))) good.1,
        free,
        put-OnlyMoved (some user) r.queue r.uuid row (post_take o now i.room db).1 before at e f
            (post_take-Keeps i.room db ∙ kept ∙ wrote),
      ))
  saved-Takes user r row before d (err x, db) free at (e, f) wrote (kept, good) = inr (
      inl (
        x,
        refl,
        free,
        inr (put-OnlyMoved (some user) r.queue r.uuid row db before at e f (kept ∙ wrote)),
      ))

  take_free-Takes :
      (user : ℕ) (r : Room) (db : Db)
      → r.user ≡ none
      → Takes user r db (take_free o now user r none db)
  unfolding take_room
  take_free-Takes user r db free =
      let i = taken user (load r) in
      let t = create_transfer_json "pick" (of_queue r.queue) (of_user (some user)) user in
      elim (save_cases now i db) [
        | inl e ↦ rw e (inr (inl (closed_room, refl, free, inl refl)))
        | inr (inl e) ↦ rw e (inr (inl (integrity_error, refl, free, inl refl)))
        | inr (inr (_, _, e)) ↦ rw e (
            saved-Takes user r (stamped now i) db (updated now i db) _ free (stamped-uuid now i)
              (stamped-user now i, stamped-queue now i) (updated-SameRooms now i db).rooms
              ((then_recorded (some user) r.queue t (load (stamped now i))
                  (stamped-user now i, stamped-queue now i)).at
                (updated now i db)))
      ]

  taken-Takes :
      (user : ℕ) (r : Room) (db : Db) (own : Option ℕ)
      → r.user ≡ own
      → Takes user r db (take_free o now user r own db)
  taken-Takes user r db (some other) e =
      inl (ap (λ u. ok (failed (already_assigned r.uuid u))) (sym e), ap is_some e, refl)
  taken-Takes user r db none e = take_free-Takes user r db e

  -- The turn of a room in a bulk take ends in one of three ways. A room that has a user fails as
  -- already assigned, and changes nothing. A free room succeeds with the user, in its queue, with
  -- every other room as before; or it fails with an error that names it, and then either no room has
  -- changed or, since nothing is undone, this one alone has been given to the user all the same.
  pub take_one-Takes : (user : ℕ) (r : Room) (db : Db) → Takes user r db (take_one o now user r db)
  unfolding take_one
  take_one-Takes user r db = taken-Takes user r db r.user refl
