-- ===== src/Bulk/Close/Turns.antt =====
-- The turn of a room in `BulkCloseService.close`
-- (chats/apps/api/v1/rooms/services/bulk_close_service.py).
use chats_engine.Prelude.{
  ==_iff, ℕ, ◌+◌, ◌<◌, ◌≡◌, refl, ap, sym, ◌∙◌, subst, ◌⊎◌, inl, inr, String, Bool, true, false,
  Option, none, some, List, [], ◌∷◌, arith, if◌then◌else◌, is_some, length,
}
use chats_engine.Store.{Queue, Room, Effect, metrics_task, closed_room, Db, Error, Result, ok, err}
use chats_engine.Store.Tables.{find_room}
use chats_engine.Store.Action.{Done, bind}
use chats_engine.Rooms.{
  is_closed_row, is_active_in, Instance, load, close, has_tag, contains, sector_has_changed,
}
use chats_engine.InService.Frame.{SameRooms}
use chats_engine.InService.Unsent.{unsent}
use chats_engine.Rooms.Finishing.{Late, no_queue, unsent_task}
use chats_engine.Rooms.Closing.{
  closed_row_of, saved, saved-Ended, saved-tags, Closure, close-Closure,
}
use chats_engine.Queues.Router.{Turn}
use chats_engine.Bulk.{Outside, exception, BulkResult, deliver, notify_queue, notify_user}
use chats_engine.Bulk.Loop.{Outcome, succeeded, failed}
use chats_engine.Bulk.Frame.{deliver-Sends, notify_queue-Sends, notify_user-Sends, sends_too}
use chats_engine.Bulk.Results.{is_ok, Consistent, run_batches-counts}
use chats_engine.Bulk.Close.{
  tags_of, announce_if, post_close, closed_outcome, close_one, close_rooms,
}

abbrev OnlySends : Db → Result Done × Db → Type 0
OnlySends before (x, db) = (x ≡ ok tt) × (db ≡ record before { outbox = db.outbox })

module _ (o : Outside) where
  -- What follows a closure only sends, and does not raise where the room is there.
  announced : (has_user : Bool) (r : Room) (db : Db) → OnlySends db (announce_if o has_user r db)
  announced true r db =
      let a = (notify_queue o r "rooms.close" db).1 in
      let b = (notify_user o r "rooms.close" none a).1 in
      (
        refl,
        sends_too db b (deliver o (metrics_task r.uuid) b).1
            (sends_too db a b (notify_queue-Sends o r "rooms.close" db)
              (notify_user-Sends o r "rooms.close" none a))
            (deliver-Sends o (metrics_task r.uuid) b),
      )
  announced false r db =
      let a = (notify_queue o r "rooms.close" db).1 in
      (
        refl,
        sends_too db a (deliver o (metrics_task r.uuid) a).1
            (notify_queue-Sends o r "rooms.close" db) (deliver-Sends o (metrics_task r.uuid) a),
      )

  post_close-OnlySends :
      (room : ℕ) (db : Db) (r : Room)
      → find_room room db.rooms ≡ some r
      → OnlySends db (post_close o room db)
  unfolding post_close
  post_close-OnlySends room db r found = rw found (announced (is_some r.user) r db)

-- The row of a room that `Room.close` has closed, with its tags.
abbrev pub Shut : ℕ → List ℕ → String → Option ℕ → Room → Db → Type 0
Shut now tags end_by closed_by r db =
    (row : Room) × (find_room r.uuid db.rooms ≡ some row)
    × (row.is_active ≡ false)
    × (row.ended_at ≡ some now)
    × (row.ended_by ≡ end_by)
    × (row.closed_by ≡ closed_by)
    × (row.user ≡ r.user)
    × ((tag : ℕ) → has_tag r.uuid db.room_tags tag ≡ contains tags tag)

abbrev pub was_closed : ℕ → Db → Bool
was_closed room db = is_closed_row (is_active_in room db.rooms)

-- How the turn of a room ends.
abbrev pub Closes :
    Outside → ℕ → List ℕ → String → Option ℕ → Room → Db → Result Outcome × Db → Type 0
Closes o now tags end_by closed_by r before (x, db) =
    ((was_closed r.uuid before ≡ true)
      × (x ≡ ok (failed (exception r.uuid closed_room)))
      × (db ≡ before))
    ⊎ ((was_closed r.uuid before ≡ false)
        × Shut now tags end_by closed_by r db
        × ((x ≡ ok (succeeded (r.queue ∷ [])))
            ⊎ ((e : Error) × (x ≡ ok (failed (exception r.uuid e)))
                × ((r.queue ≡ none) ⊎ ((f : Effect) × (d : Db) × (o.fails f d ≡ some e))))))

unmoved : (q : Option Queue) → sector_has_changed q q ≡ false
unmoved none = refl
unmoved (some q) = ground arith

module _ (o : Outside) (now : ℕ) (tags : List ℕ) (end_by : String) (closed_by : Option ℕ) (r : Room)
    (before : Db) where
  announced-Closes :
      (q : Option Queue) (y : Result Done × Db) (db : Db)
      → q ≡ r.queue
      → OnlySends db y
      → was_closed r.uuid before ≡ false
      → Shut now tags end_by closed_by r db
      → Closes o now tags end_by closed_by r before
          (bind y (λ _ db'. (ok (succeeded (q ∷ [])), db')))
  announced-Closes q (ok a, db') db e (_, sent) open_ shut = inr (
    open_,
    subst (λ (d : Db). Shut now tags end_by closed_by r d) (sym sent) shut,
    inl (ap (λ q. ok (succeeded (q ∷ []))) e),
  )
  announced-Closes q (err x, db') db e (returned, sent) open_ shut =
      absurd (ground (arith, returned))

  -- The row and the tags that the transaction leaves.
  Shut-by :
      {db : Db}
      → SameRooms (saved o.fails now (some tags) end_by closed_by (load r) before) db
      → Shut now tags end_by closed_by r db
  Shut-by s =
      let k = saved-Ended o.fails now (some tags) end_by closed_by (load r) before s in
      (
        closed_row_of o.fails now (some tags) end_by closed_by (load r) before,
        k.found,
        k.inactive,
        k.at,
        k.by,
        k.who,
        k.user,
        λ tag.
            saved-tags o.fails now tags end_by closed_by (load r) before (unmoved r.queue) s r.uuid
              tag
            ∙ ap (λ b. if b then contains tags tag else has_tag r.uuid before.room_tags tag)
                ((==_iff r.uuid r.uuid).1 refl),
      )

  late :
      (row : Room) (e : Error)
      → row.queue ≡ r.queue
      → Late o.fails row e
      → (r.queue ≡ none) ⊎ ((f : Effect) × (d : Db) × (o.fails f d ≡ some e))
  late row e same (no_queue h) = inl (sym same ∙ h)
  late row e same (unsent_task (unsent f d h)) = inr (f, d, h)

  shut_end :
      (x : Result Instance × Db)
      → Closure o.fails now (some tags) end_by closed_by (load r) before x
      → Closes o now tags end_by closed_by r before (closed_outcome o r x)
  shut_end (err e, db) (inl (shut, raised, same_db)) =
      let which : e ≡ closed_room = ground (arith, raised) in
      inl (shut, ap (λ e. ok (failed (exception r.uuid e))) which, same_db)
  shut_end (ok i, db) (inl (_, raised, _)) = absurd (ground (arith, raised))
  shut_end (err e, db) (inr (open_, ends, s)) =
      let k = saved-Ended o.fails now (some tags) end_by closed_by (load r) before s in
      inr (open_, Shut-by s, inr (e, refl, late _ e k.queue ends))
  shut_end (ok i, db) (inr (open_, ends, s)) =
      let k = saved-Ended o.fails now (some tags) end_by closed_by (load r) before s in
      announced-Closes i.room.queue (post_close o r.uuid db) db
        (ap (λ (j : Instance). j.room.queue) ends ∙ k.queue)
        (post_close-OnlySends o r.uuid db _ k.found) open_ (Shut-by s)

-- The turn of a room in a bulk closure ends in one of three ways; nothing else escapes it. If the row
-- was closed already, it fails for that reason and everything is as before. Otherwise the row is closed,
-- at this time and by these parties, with its user, and the room has exactly the tags that the map has
-- for it, so none where it has no entry; the turn then succeeds, unless the room has no queue or sending
-- a task raises, which comes after the transaction: the room is closed and reported as failed.
pub close_one-Closes :
    (o : Outside) (room_tags : List (ℕ × List ℕ)) (end_by : String) (closed_by : Option ℕ) (now : ℕ)
    (r : Room) (before : Db)
    → Closes o now
        (tags_of room_tags r.uuid)
        end_by
        closed_by
        r
        before
        (close_one o room_tags end_by closed_by now r before)
unfolding close_one
close_one-Closes o room_tags end_by closed_by now r before =
    shut_end o now (tags_of room_tags r.uuid) end_by closed_by r before
      (close o.fails now (some (tags_of room_tags r.uuid)) end_by closed_by (load r) before)
      (close-Closure o.fails now (some (tags_of room_tags r.uuid)) end_by closed_by (load r) before)

returns :
    (o : Outside) (now : ℕ) (tags : List ℕ) (end_by : String) (closed_by : Option ℕ) (r : Room)
    (before : Db) (x : Result Outcome × Db)
    → Closes o now tags end_by closed_by r before x
    → is_ok x.0 ≡ true
returns o now tags end_by closed_by r before (x, db) (inl (_, is, _)) = ap is_ok is
returns o now tags end_by closed_by r before (x, db) (inr (_, _, inl is)) = ap is_ok is
returns o now tags end_by closed_by r before (x, db) (inr (_, _, inr (e, is, _))) = ap is_ok is

-- With a positive batch size, a bulk closure returns whatever fails on the way, and its result counts
-- every room once, as a success or a failure, with an error and a key for each failure.
pub close_rooms-counts :
    (o : Outside) (world : ℕ → Turn) (size : ℕ) (rooms : List Room) (room_tags : List (ℕ × List ℕ))
    (end_by : String) (closed_by : Option ℕ) (db : Db)
    → 0 < size
    → (r : BulkResult) × ((close_rooms o world size rooms room_tags end_by closed_by db).0 ≡ ok r)
      × Consistent r
      × (r.success_count + r.failed_count ≡ length rooms)
unfolding close_rooms
close_rooms-counts o world size rooms room_tags end_by closed_by db positive =
    let (r, e, c, counted) =
      run_batches-counts o (close_one o room_tags end_by closed_by) world
        (λ now x d.
          returns o now _ end_by closed_by x d _
            (close_one-Closes o room_tags end_by closed_by now x d))
        (λ (batch : List Room) d. batch) size rooms (λ batch d. refl) db positive in
    (r, e, c, counted ∙ omega arith)
