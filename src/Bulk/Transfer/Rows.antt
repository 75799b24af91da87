-- ===== src/Bulk/Transfer/Rows.antt =====
-- The row that a transfer of `BulkTransferService` leaves
-- (chats/apps/api/v1/rooms/services/bulk_transfer_service.py).
use chats_engine.Prelude.{
  ℕ, ◌≡◌, refl, ap, ◌∙◌, inl, inr, Bool, true, false, not, ◌&&◌, Option, Bool-cases, subst,
}
use chats_engine.Store.{Queue, Room, Transfer, Db, Result, ok, err}
use chats_engine.Store.Tables.{put_room}
use chats_engine.Store.Action.{Action, Done, when, bind}
use chats_engine.Rooms.{Instance, load, save, stamped, is_active_in, is_closed_row}
use chats_engine.Rooms.Saving.{
  save_cases, updated, updated-SameRooms, update-SameRooms, stamped-uuid, stamped-user,
  stamped-queue,
}
use chats_engine.Rooms.Transfers.{add_transfer_to_history, mark_notes_as_non_deletable}
use chats_engine.Bulk.{add_queue_metrics}
use chats_engine.Bulk.Frame.{Keeps, Steps, Good}

-- The user and the queue of an instance.
abbrev pub Of : Option ℕ → Option Queue → Instance → Type 0
Of u q i = (i.room.user ≡ u) × (i.room.queue ≡ q)

recorded :
    (u : Option ℕ) (q : Option Queue) (now : ℕ) (t : Transfer) (i : Instance) (db : Db)
    → Of u q i
    → let (x, db') = add_transfer_to_history now t i db in (db'.rooms ≡ db.rooms) × Good (Of u q) x
unfolding add_transfer_to_history
recorded u q now t i db (e, f) =
    elim (Bool-cases (not i.adding && is_closed_row (is_active_in i.room.uuid db.rooms))) [
      | inl shut ↦ rw shut (refl, tt)
      | inr open_ ↦ rw open_ (
        (update-SameRooms now i.adding (stamped now i) _).rooms,
        (stamped-user now i ∙ e, stamped-queue now i ∙ f),
      )
    ]

pub add_transfer_to_history-Steps :
    (u : Option ℕ) (q : Option Queue) (now : ℕ) (t : Transfer) (i : Instance)
    → Of u q i
    → Steps (Of u q) (add_transfer_to_history now t i)
add_transfer_to_history-Steps u q now t i is = record { at = λ db. recorded u q now t i db is }

pub notes-Keeps : (room : ℕ) → Keeps (mark_notes_as_non_deletable room)
notes-Keeps room db = refl

pub metrics-Keeps : (now : ℕ) (r : Room) → Keeps (add_queue_metrics now r)
unfolding add_queue_metrics
metrics-Keeps now r db = refl

pub when-Keeps : (b : Bool) (m : Action Done) → Keeps m → Keeps (when b m)
when-Keeps true m s db = s db
when-Keeps false m s db = refl

-- A transfer that ends has written one row, with that user and that queue.
abbrev pub Moved : Option ℕ → Option Queue → ℕ → Db → Result Instance → Db → Type 0
Moved u q uuid before (ok i) db =
    (i.room.queue ≡ q)
    × ((row : Room) × (row.uuid ≡ uuid)
        × (row.user ≡ u)
        × (row.queue ≡ q)
        × (db.rooms ≡ put_room row before.rooms))
Moved u q uuid before (err e) db = Unit

module _ (u : Option ℕ) (q : Option Queue) where
  ended-Moved :
      (row : Room) (x : Result Instance) (db' d before : Db)
      → (row.user ≡ u) × (row.queue ≡ q)
      → d.rooms ≡ put_room row before.rooms
      → (db'.rooms ≡ d.rooms) × Good (Of u q) x
      → Moved u q row.uuid before x db'
  ended-Moved row (ok i) db' d before (e, f) wrote (kept, good) =
      (good.1, (row, refl, e, f, kept ∙ wrote))
  ended-Moved row (err x) db' d before _ wrote _ = tt

  Moved-before :
      (uuid : ℕ) (x : Result Instance) (db' d before : Db)
      → d.rooms ≡ before.rooms
      → Moved u q uuid d x db'
      → Moved u q uuid before x db'
  Moved-before uuid (ok i) db' d before e (on, (row, a, b, c, wrote)) =
      (on, (row, a, b, c, wrote ∙ ap (put_room row) e))
  Moved-before uuid (err x) db' d before e _ = tt

  after_done-Moved :
      (k : Action Instance) (uuid : ℕ) (before : Db) (x : Result Done × Db)
      → x.1.rooms ≡ before.rooms
      → ((db : Db) → let (x, db') = k db in Moved u q uuid db x db')
      → let (x, db') = bind x (λ _. k) in Moved u q uuid before x db'
  after_done-Moved k uuid before (ok a, db) e g =
      Moved-before uuid (k db).0 (k db).1 db before e (g db)
  after_done-Moved k uuid before (err x, db) e g = tt

  pub saved-Moved :
      (now : ℕ) (i : Instance) (rest : Instance → Action Instance) (db : Db)
      → Of u q i
      → ((j : Instance) → Of u q j → Steps (Of u q) (rest j))
      → let (x, db') = bind (save now i db) rest in Moved u q i.room.uuid db x db'
  saved-Moved now i rest db (e, f) g = elim (save_cases now i db) [
    | inl s ↦ rw s tt
    | inr (inl s) ↦ rw s tt
    | inr (inr (_, _, s)) ↦
        let is_user = stamped-user now i ∙ e in
        let is_queue = stamped-queue now i ∙ f in
        let d = updated now i db in
        let (x, db') = rest (load (stamped now i)) d in
        rw s (
          subst (λ k. Moved u q k db x db') (stamped-uuid now i)
            (ended-Moved (stamped now i) x db' d db (is_user, is_queue)
              (updated-SameRooms now i db).rooms
              ((g (load (stamped now i)) (is_user, is_queue)).at d)))
  ]

  pub after_ticket-Moved :
      (m : Action Done) (k : Action Instance) (uuid : ℕ) (db : Db)
      → Keeps m
      → ((before : Db) → let (x, db') = k before in Moved u q uuid before x db')
      → let (x, db') = bind (m db) (λ _. k) in Moved u q uuid db x db'
  after_ticket-Moved m k uuid db s g = after_done-Moved k uuid db (m db) (s db) g
