-- ===== src/Inactivity/Closures.antt =====
-- What an automatic closure does to its room (chats/apps/rooms/usecases/inactivity.py).
use chats_engine.Prelude.{
  ℕ, ◌≡◌, refl, ap, String, subst, ◌∙◌, inl, inr, Bool, true, false, Option, none, some, [], ◌==◌,
  ==_iff, if◌then◌else◌, Option-cases, arith,
}
use chats_engine.Store.{
  queue_event, Queue, Permission, Room, Effect, metrics_task, Db, Result, ok, err,
}
use chats_engine.Store.Tables.{find_room, send, send_if}
use chats_engine.Rooms.{Instance, load, close, has_tag, sector_has_changed}
use chats_engine.Rooms.Closing.{close-ends, close-tags}
use chats_engine.Queues.Router.Waiting.{find_room-Among}
use chats_engine.InService.{Celery}
use chats_engine.Inactivity.{State, send_silent, create_message, inactive_close}
use chats_engine.Inactivity.Service.{
  to_permission, closing_text, close_feedback, notify_closed, start_routing, closed_after,
  close_room,
}

-- What is announced of a closure changes no room and no tag.
pub record Told (a b : Db) : Type 0 where
  pub rooms : b.rooms ≡ a.rooms
  pub tags : b.room_tags ≡ a.room_tags

to_permission-Told :
    (room : ℕ) (action : String) (o : Option Permission) (a db : Db)
    → Told a db
    → Told a (to_permission room action o db)
to_permission-Told room action none a db h = h
to_permission-Told room action (some p) a db h = record { rooms = h.rooms; tags = h.tags }

notify_closed-Told :
    (room : ℕ) (user : Option ℕ) (o : Option Queue) (db : Db)
    → Told db (notify_closed room user o db)
notify_closed-Told room user none db = record { rooms = refl; tags = refl }
notify_closed-Told room none (some q) db = record { rooms = refl; tags = refl }
notify_closed-Told room (some user) (some q) db =
    to_permission-Told room "rooms.close" _ db (send (queue_event q.uuid room "rooms.close") db)
      record { rooms = refl; tags = refl }

send_if-Told : (b : Bool) (e : Effect) (a db : Db) → Told a db → Told a (send_if b e db)
send_if-Told true e a db h = record { rooms = h.rooms; tags = h.tags }
send_if-Told false e a db h = h

no_tag : (n : ℕ) (b : Bool) → (if n == n then false else b) ≡ false
no_tag n b = rw ((==_iff n n).1 refl) refl

not_changed : (q : Option Queue) → sector_has_changed q q ≡ false
not_changed none = refl
not_changed (some q) = ground arith

module _ (celery : Celery) (calc_metrics : Bool) (start : Queue → Db → Result (Unit {0}) × Db)
    (quiet : (q : Queue) (db : Db) → Told db (start q db).1) where
  abbrev noted : ℕ → Room → State → State
  noted now r s =
      (create_message now r none close_feedback none
        (send_silent now r (closing_text r) r.user inactive_close s).1).1

  abbrev shutting : Room → Instance
  shutting x = record (load x) { room = record x { automatic_closed = true } }

  routed-Told :
      (o : Option Queue) (a db : Db)
      → Told a db
      → Told a (start_routing celery calc_metrics start o db)
  routed-Told none a db h = h
  routed-Told (some q) a db h = record {
    rooms = (quiet q db).rooms ∙ h.rooms;
    tags = (quiet q db).tags ∙ h.tags;
  }

  -- A closure that counts has closed the room, in whose row and tags what follows changes nothing.
  closed_after-cases :
      (s s' : State) (x : Result Instance × Db)
      → closed_after celery calc_metrics start s x ≡ (some true, s')
      → (j : Instance) × (db : Db) × (x ≡ (ok j, db)) × Told db s'.db
  closed_after-cases s s' (err e, db) h = absurd (ground (arith, h))
  closed_after-cases s s' (ok j, db) h = (
    j,
    db,
    refl,
    subst (λ (y : Option Bool × State). Told db y.1.db) h
        (routed-Told j.room.queue db _ (
          send_if-Told calc_metrics (metrics_task j.room.uuid) db _
            (notify_closed-Told j.room.uuid j.room.user j.room.queue db))),
  )

  abbrev opened : ℕ → Room → State → Option Room → Option Bool × State
  opened now r s none = (none, noted now r s)
  opened now r s (some x) =
      closed_after celery calc_metrics start (noted now r s)
        (close celery now (some []) "inactivity" x.user (shutting x) (noted now r s).db)

  abbrev Closed : ℕ → ℕ → State → Type 0
  Closed now u s' =
      (y : Room) × (find_room u s'.db.rooms ≡ some y)
      × (y.is_active ≡ false)
      × (y.ended_at ≡ some now)
      × (y.ended_by ≡ "inactivity")
      × ((tag : ℕ) → has_tag u s'.db.room_tags tag ≡ false)

  found :
      (now : ℕ) (r : Room) (s s' : State) (x : Room)
      → find_room r.uuid (noted now r s).db.rooms ≡ some x
      → opened now r s (some x) ≡ (some true, s')
      → Closed now r.uuid s'
  found now r s s' x row h =
      let (j, db, e, told) = closed_after-cases (noted now r s) s' _ h in
      let ends =
        close-ends celery now (some []) "inactivity" x.user (shutting x) (noted now r s).db e in
      let key : x.uuid ≡ r.uuid =
        (==_iff x.uuid r.uuid).0 (find_room-Among r.uuid x (noted now r s).db.rooms row).1 in
      subst (λ u. Closed now u s') key
        (
          j.room,
          ap (find_room x.uuid) told.rooms ∙ ends.0,
          ends.2,
          ends.3,
          ends.4,
          λ tag.
              ap (λ t. has_tag x.uuid t tag) told.tags
              ∙ close-tags celery now [] "inactivity" x.user (shutting x) (noted now r s).db e
                  (not_changed x.queue) x.uuid tag
              ∙ no_tag x.uuid (has_tag x.uuid (noted now r s).db.room_tags tag),
        )

  -- An automatic closure that counts leaves the room's row closed, ended by inactivity at the time of
  -- the run, and takes all its tags, provided that starting the routing of a queue changes no room and
  -- no tag on the spot.
  pub close_room-closes :
      (now : ℕ) (r : Room) (s s' : State)
      → close_room celery calc_metrics start now r s ≡ (some true, s')
      → (y : Room) × (find_room r.uuid s'.db.rooms ≡ some y)
        × (y.is_active ≡ false)
        × (y.ended_at ≡ some now)
        × (y.ended_by ≡ "inactivity")
        × ((tag : ℕ) → has_tag r.uuid s'.db.room_tags tag ≡ false)
  unfolding close_room
  close_room-closes now r s s' h = elim (Option-cases (find_room r.uuid (noted now r s).db.rooms)) [
    | inl e ↦ absurd (raised (subst (λ o. opened now r s o ≡ (some true, s')) e h))
    | inr (x, e) ↦ found now r s s' x e (subst (λ o. opened now r s o ≡ (some true, s')) e h)
  ]
    where
      raised : ¬ (opened now r s none ≡ (some true, s'))
      raised k = ground (arith, k)
