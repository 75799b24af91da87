-- ===== src/Bulk/Transfer/Moves.antt =====
-- What each transfer of `BulkTransferService` does to the rows
-- (chats/apps/api/v1/rooms/services/bulk_transfer_service.py).
use chats_engine.Prelude.{ℕ, ◌≡◌, refl, Bool, true, ◌||◌, Option, none, some, arith, is_some}
use chats_engine.Store.{feedback, Queue, Room, Db}
use chats_engine.Store.Action.{Action, when, ◌>>◌}
use chats_engine.Rooms.{Instance}
use chats_engine.Rooms.Transfers.{mark_notes_as_non_deletable}
use chats_engine.Bulk.{
  Outside, add_queue_metrics, change_ticketer_for_room, create_room_feedback_message, notify_queue,
  notify_user, update_ticket, send_automatic_message,
}
use chats_engine.Bulk.Transfer.{
  transfer_user_and_queue, transfer_user, transfer_queue, transfer_room,
}
use chats_engine.Bulk.Frame.{
  Sends-Keeps, sent-Steps, when-Sends, deliver-Sends, notify_queue-Sends, notify_user-Sends,
  update_ticket-Sends, send_automatic_message-Sends, change_ticketer_for_room-Sends, Keeps, Steps,
  >>=-Steps, >>-Steps, pure-Steps,
}
use chats_engine.Bulk.Transfer.Rows.{
  Of, Moved, add_transfer_to_history-Steps, notes-Keeps, metrics-Keeps, when-Keeps, saved-Moved,
  after_ticket-Moved,
}

abbrev pub target_user : Option ℕ → Option Queue → Option ℕ → Option ℕ
target_user (some user) queue own = some user
target_user none (some queue) own = none
target_user none none own = own

abbrev pub target_queue : Option Queue → Option Queue → Option Queue
target_queue (some queue) own = some queue
target_queue none own = own

module _ (o : Outside) (now user_request : ℕ) where
  ticketer-Keeps : (r : Room) (sector : ℕ) → Keeps (change_ticketer_for_room o r sector)
  ticketer-Keeps r sector =
      Sends-Keeps (change_ticketer_for_room o r sector) (change_ticketer_for_room-Sends o r sector)

  -- The steps that follow a save, each with what follows it.
  noted-Steps :
      (P : Instance → Type 0) (r : Room) (k : Action Instance)
      → Steps P k
      → Steps P (create_room_feedback_message o r >> k)
  noted-Steps P r k =
      sent-Steps P (create_room_feedback_message o r) k (deliver-Sends o (feedback r.uuid "rt"))

  to_queue-Steps :
      (P : Instance → Type 0) (r : Room) (k : Action Instance)
      → Steps P k
      → Steps P (notify_queue o r "rooms.update" >> k)
  to_queue-Steps P r k =
      sent-Steps P (notify_queue o r "rooms.update") k (notify_queue-Sends o r "rooms.update")

  to_user-Steps :
      (P : Instance → Type 0) (r : Room) (u : Option ℕ) (k : Action Instance)
      → Steps P k
      → Steps P (notify_user o r "rooms.update" u >> k)
  to_user-Steps P r u k =
      sent-Steps P (notify_user o r "rooms.update" u) k (notify_user-Sends o r "rooms.update" u)

  ticket-Steps :
      (P : Instance → Type 0) (r : Room) (k : Action Instance)
      → Steps P k
      → Steps P (update_ticket o r >> k)
  ticket-Steps P r k = sent-Steps P (update_ticket o r) k (update_ticket-Sends o r)

  notes-Steps :
      (P : Instance → Type 0) (r : Room) (k : Action Instance)
      → Steps P k
      → Steps P (mark_notes_as_non_deletable r.uuid >> k)
  notes-Steps P r k = >>-Steps P (mark_notes_as_non_deletable r.uuid) k (notes-Keeps r.uuid)

  metrics-Steps :
      (P : Instance → Type 0) (b : Bool) (r : Room) (k : Action Instance)
      → Steps P k
      → Steps P (when b (add_queue_metrics now r) >> k)
  metrics-Steps P b r k =
      >>-Steps P (when b (add_queue_metrics now r)) k
        (when-Keeps b (add_queue_metrics now r) (metrics-Keeps now r))

  greeted-Steps :
      (P : Instance → Type 0) (b : Bool) (r : Room) (k : Action Instance)
      → Steps P k
      → Steps P (when b (send_automatic_message o r) >> k)
  greeted-Steps P b r k =
      sent-Steps P (when b (send_automatic_message o r)) k
        (when-Sends b (send_automatic_message o r) (send_automatic_message-Sends o r))

  user_and_queue-Moved :
      (user : ℕ) (queue : Queue) (i : Instance) (db : Db)
      → let (x, db') = transfer_user_and_queue o now user_request user queue i db in
        Moved (some user) (some queue) i.room.uuid db x db'
  unfolding transfer_user_and_queue
  user_and_queue-Moved user queue i db =
      let P = Of (some user) (some queue) in
      after_ticket-Moved (some user) (some queue)
        (change_ticketer_for_room o i.room queue.sector.uuid) _ i.room.uuid db
        (ticketer-Keeps i.room queue.sector.uuid)
        (λ before.
          saved-Moved (some user) (some queue) now _ _ before (refl, refl)
            (λ j is. metrics-Steps P _ j.room _ (
              >>=-Steps P P _ _ (add_transfer_to_history-Steps _ _ now _ j is) (λ k is.
                >>=-Steps P P _ _ (add_transfer_to_history-Steps _ _ now _ k is) (λ l is.
                  noted-Steps P l.room _ (
                    noted-Steps P l.room _ (
                      to_queue-Steps P l.room _ (
                        to_user-Steps P l.room _ _ (
                          to_user-Steps P l.room _ _ (
                            notes-Steps P l.room _
                              (ticket-Steps P l.room _ (pure-Steps P l is))))))))))))

  user-Moved :
      (user : ℕ) (i : Instance) (db : Db)
      → let (x, db') = transfer_user o now user_request user i db in
        Moved (some user) i.room.queue i.room.uuid db x db'
  unfolding transfer_user
  user-Moved user i db =
      let P = Of (some user) i.room.queue in
      saved-Moved (some user) i.room.queue now _ _ db (refl, refl)
        (λ j is. metrics-Steps P _ j.room _ (
          >>=-Steps P P _ _ (add_transfer_to_history-Steps _ _ now _ j is) (λ k is.
            noted-Steps P k.room _ (
              to_user-Steps P k.room _ _ (
                to_user-Steps P k.room _ _ (
                  to_queue-Steps P k.room _ (
                    ticket-Steps P k.room _ (
                      notes-Steps P k.room _
                        (greeted-Steps P _ k.room _ (pure-Steps P k is))))))))))

  queue-Moved :
      (queue : Queue) (i : Instance) (db : Db)
      → let (x, db') = transfer_queue o now user_request queue i db in
        Moved none (some queue) i.room.uuid db x db'
  unfolding transfer_queue
  queue-Moved queue i db =
      let P = Of none (some queue) in
      after_ticket-Moved none (some queue) (change_ticketer_for_room o i.room queue.sector.uuid) _
        i.room.uuid db (ticketer-Keeps i.room queue.sector.uuid)
        (λ before.
          saved-Moved none (some queue) now _ _ before (refl, refl)
            (λ j is. >>=-Steps P P _ _ (add_transfer_to_history-Steps _ _ now _ j is) (λ k is.
              noted-Steps P k.room _ (
                to_user-Steps P k.room _ _
                  (to_queue-Steps P k.room _ (notes-Steps P k.room _ (pure-Steps P k is)))))))

  -- A transfer to somewhere, that ends, writes the row of its room, with the target.
  pub transfer_room-Moved :
      (user : Option ℕ) (queue : Option Queue) (i : Instance) (db : Db)
      → is_some user || is_some queue ≡ true
      → let (x, db') = transfer_room o now user_request user queue i db in
        Moved
          (target_user user queue i.room.user)
          (target_queue queue i.room.queue)
          i.room.uuid
          db
          x
          db'
  unfolding transfer_room
  transfer_room-Moved (some user) (some queue) i db h = user_and_queue-Moved user queue i db
  transfer_room-Moved (some user) none i db h = user-Moved user i db
  transfer_room-Moved none (some queue) i db h = queue-Moved queue i db
  transfer_room-Moved none none i db h = absurd (ground (arith, h))
