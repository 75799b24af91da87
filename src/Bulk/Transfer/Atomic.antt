-- ===== src/Bulk/Transfer/Atomic.antt =====
-- The body of `BulkTransferService._process_batch` for one room
-- (chats/apps/api/v1/rooms/services/bulk_transfer_service.py).
use chats_engine.Prelude.{
  ℕ, ◌≡◌, refl, ap, subst, ◌∙◌, ◌⊎◌, inl, inr, true, ◌||◌, ◌==◌, Option, some, [], ◌∷◌,
  if◌then◌else◌, is_some,
}
use chats_engine.Store.{Queue, Room, Db, Error, Result, ok, err}
use chats_engine.Store.Tables.{find_room, put_room, find_room-put_room}
use chats_engine.Store.Action.{rolled_back}
use chats_engine.Rooms.{Instance, load}
use chats_engine.Bulk.{Outside, exception}
use chats_engine.Bulk.Loop.{Outcome, succeeded, failed}
use chats_engine.Bulk.Transfer.{transfer_room, transfer_one, transferred}
use chats_engine.Bulk.Transfer.Rows.{Moved}
use chats_engine.Bulk.Transfer.Moves.{target_user, target_queue, transfer_room-Moved}

-- The room has a row with that user and that queue, and the other rooms have the rows they had.
abbrev pub OnlyMoved : Option ℕ → Option Queue → ℕ → Db → Db → Type 0
OnlyMoved u q uuid before db =
    (row : Room) × (row.user ≡ u)
    × (row.queue ≡ q)
    × ((id : ℕ)
        → find_room id db.rooms ≡ (if uuid == id then some row else find_room id before.rooms))

-- How the body ends.
abbrev pub Ends : Option ℕ → Option Queue → Room → Db → Result Outcome × Db → Type 0
Ends u q r before (x, db) =
    ((e : Error) × (x ≡ ok (failed (exception r.uuid e)))
      × (db ≡ record before { outbox = db.outbox }))
    ⊎ ((x ≡ ok (succeeded (r.queue ∷ q ∷ []))) × OnlyMoved u q r.uuid before db)

pub put-OnlyMoved :
    (u : Option ℕ) (q : Option Queue) (uuid : ℕ) (row : Room) (db before : Db)
    → row.uuid ≡ uuid
    → row.user ≡ u
    → row.queue ≡ q
    → db.rooms ≡ put_room row before.rooms
    → OnlyMoved u q uuid before db
put-OnlyMoved u q uuid row db before at e f wrote = (
  row,
  e,
  f,
  λ id.
      ap (find_room id) wrote
      ∙ subst
          (λ k.
            find_room id (put_room row before.rooms)
            ≡ (if k == id then some row else find_room id before.rooms))
          at (find_room-put_room id row before.rooms),
)

only_row :
    (u : Option ℕ) (q : Option Queue) (uuid : ℕ) (i : Instance) (db before : Db)
    → Moved u q uuid before (ok i) db
    → OnlyMoved u q uuid before db
only_row u q uuid i db before (on, (row, at, e, f, wrote)) =
    put-OnlyMoved u q uuid row db before at e f wrote

ended-Ends :
    (u : Option ℕ) (q : Option Queue) (r : Room) (before : Db) (x : Result Instance × Db)
    → Moved u q r.uuid before x.0 x.1
    → Ends u q r before (transferred r (rolled_back before x))
ended-Ends u q r before (ok i, db) m =
    inr (ap (λ k. ok (succeeded (r.queue ∷ k ∷ []))) m.0, only_row u q r.uuid i db before m)
ended-Ends u q r before (err e, db) m = inl (e, refl, refl)

-- The turn of a room in a bulk transfer to a user, a queue or both ends in one of two ways. Either
-- it fails, with an error that names the room, and every table is as before, so that only what was
-- sent meanwhile remains; or it succeeds, the room has the target's user (nobody, where only a queue
-- is given) and queue, every other room is as before, and the old and the new queue are to be routed.
pub transfer_one-atomic :
    (o : Outside) (now user_request : ℕ) (user : Option ℕ) (queue : Option Queue) (r : Room)
    (db : Db)
    → is_some user || is_some queue ≡ true
    → Ends
        (target_user user queue r.user)
        (target_queue queue r.queue)
        r
        db
        (transfer_one o now user_request user queue r db)
unfolding transfer_one
transfer_one-atomic o now user_request user queue r db some_target =
    ended-Ends (target_user user queue r.user) (target_queue queue r.queue) r db
      (transfer_room o now user_request user queue (load r) db)
      (transfer_room-Moved o now user_request user queue (load r) db some_target)
