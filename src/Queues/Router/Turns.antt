-- ===== src/Queues/Router/Turns.antt =====
-- One turn of `QueueRouterService.route_rooms` (chats/apps/queues/services.py).
use chats_engine.Prelude.{
  ℕ, ◌≡◌, refl, ◌∙◌, ◌⊎◌, inl, inr, Bool, true, false, not, ◌&&◌, ◌||◌, Option, none, some, List,
  [], ◌∷◌, ◌==◌, is_some, any, arith, and_true,
}
use chats_engine.Store.{
  Project, Queue, Permission, Room, Effect, queue_event, permission_event, ticket_assignee,
  feedback, automatic_message, Db, Error, Result, ok, err, closed_room, integrity_error,
}
use chats_engine.Store.Tables.{put_room, send, send_if}
use chats_engine.InService.{find_permission, is_online}
use chats_engine.Rooms.{Instance, load, stamped, save}
use chats_engine.Rooms.Saving.{cleared, save_cases, updated-SameRooms, save_existing-statuses}
use chats_engine.Queues.{Env, is_seen, is_online_agent, has_capacity, is_available}
use chats_engine.Queues.Least.{Among, first, later}
use chats_engine.Queues.Choice.{can_receive-available}
use chats_engine.Queues.Router.{notify_user, announce, tell, raised, db_of, saved, assign, passes}

any-Among :
    {A : Type 0} (f : A → Bool) {a : A} (xs : List A) → Among a xs → f a ≡ true → any f xs ≡ true
any-Among f [] m h = elim m [ ]
any-Among f (x ∷ xs) first h = rw h refl
any-Among f (x ∷ xs) (later m) h = weak (f x) (any-Among f xs m h)
  where
    weak : (a : Bool) {b : Bool} → b ≡ true → (a || b) ≡ true
    weak true e = refl
    weak false e = e

-- The tables that an assignment does not change.
pub record Kept (db db' : Db) : Type 0 where
  pub permissions : db'.permissions ≡ db.permissions
  pub authorizations : db'.authorizations ≡ db.authorizations
  pub statuses : db'.statuses ≡ db.statuses

Kept-refl : (db : Db) → Kept db db
Kept-refl db = record { permissions = refl; authorizations = refl; statuses = refl }

Kept-trans : (a b c : Db) → Kept a b → Kept b c → Kept a c
Kept-trans a b c p q = record {
  permissions = q.permissions ∙ p.permissions;
  authorizations = q.authorizations ∙ p.authorizations;
  statuses = q.statuses ∙ p.statuses;
}

-- Announcing an assignment changes the metrics and what is sent out.
record Announced (db db' : Db) : Type 0 where
  rooms : db'.rooms ≡ db.rooms
  kept : Kept db db'

send_if-Announced :
    (b : Bool) (e : Effect) (a db : Db) → Announced a db → Announced a (send_if b e db)
send_if-Announced true e a db h = record {
  rooms = h.rooms;
  kept = record {
    permissions = h.kept.permissions;
    authorizations = h.kept.authorizations;
    statuses = h.kept.statuses;
  };
}
send_if-Announced false e a db h = h

notify_user-Announced :
    (user : ℕ) (project : Project) (room : ℕ) (db : Db)
    → Announced db (notify_user user project room db)
notify_user-Announced user project room db = told (find_permission user project.uuid db.permissions)
  where
    told :
        (o : Option Permission)
        → Announced db (
            let x : Db = elim o [
              | none ↦ db
              | some p ↦ send (permission_event p.uuid room "rooms.update") db
            ] in
            x)
    told none = record { rooms = refl; kept = Kept-refl db }
    told (some p) = send_if-Announced true _ db db record { rooms = refl; kept = Kept-refl db }

tell-Announced :
    (now user : ℕ) (assigned_before : Bool) (r : Room) (q : Queue) (db : Db)
    → Announced db (tell now user assigned_before r q db)
unfolding tell
tell-Announced now user assigned_before r q db =
    let n = notify_user-Announced user q.sector.project r.uuid db in
    let a =
      send_if-Announced
        (not assigned_before && q.sector.automatic_message && is_some r.user_assigned_at)
        (automatic_message r.uuid) db _
        (send_if-Announced true (feedback r.uuid "rt") db _ (
          send_if-Announced true (ticket_assignee r.uuid r.ticket_uuid user) db _
            (send_if-Announced true (queue_event q.uuid r.uuid "rooms.update") db _ n))) in
    record {
      rooms = a.rooms;
      kept = record {
        permissions = a.kept.permissions;
        authorizations = a.kept.authorizations;
        statuses = a.kept.statuses;
      };
    }

announce-Announced :
    (now user : ℕ) (assigned_before : Bool) (r : Room) (o : Option Queue) (db : Db)
    → Announced db (db_of (announce now user assigned_before r o db))
announce-Announced now user assigned_before r none db = record { rooms = refl; kept = Kept-refl db }
announce-Announced now user assigned_before r (some q) db =
    tell-Announced now user assigned_before r q db

-- The room as it is saved.
abbrev pub given : ℕ → ℕ → Room → Room
given now user r = stamped now (record (load r) { room = record r { user = some user } })

module _ (now user : ℕ) (r : Room) (db : Db) where
  abbrev i : Instance
  i = record (load r) { room = record r { user = some user } }

  save-Kept : Kept db (save now i db).1
  save-Kept = elim (save_cases now i db) [
    | inl e ↦ rw e (Kept-refl db)
    | inr (inl e) ↦ rw e record { permissions = refl; authorizations = refl; statuses = refl }
    | inr (inr (_, _, e)) ↦ record {
      permissions = rw e (updated-SameRooms now i db).permissions;
      authorizations = rw e (updated-SameRooms now i db).authorizations;
      statuses = (save_existing-statuses now i db refl).0;
    }
  ]

  saved-Announced :
      (env : Env) (q : Queue) (x : Result Instance) (d : Db)
      → Announced d (db_of (saved env q now user r (x, d)))
  saved-Announced env q (err e) d = record { rooms = refl; kept = Kept-refl d }
  saved-Announced env q (ok j) d =
      announce-Announced now user (is_some r.user_assigned_at) j.room j.room.queue d

  -- An assignment keeps the permissions and the statuses, and writes the row of the room, or fails
  -- and writes none.
  pub assign-Kept : (env : Env) (q : Queue) → Kept db (db_of (assign env q now user r db))
  unfolding assign
  assign-Kept env q =
      Kept-trans db (save now i db).1 _ save-Kept
        (saved-Announced env q (save now i db).0 (save now i db).1).kept

  pub assign-cases :
      (env : Env) (q : Queue)
      → (((e : Error) × (d : Db) × (assign env q now user r db ≡ raised e d)
          × (d.rooms ≡ db.rooms)))
        ⊎ ((db_of (assign env q now user r db)).rooms ≡ put_room (given now user r) db.rooms)
  unfolding assign
  assign-cases env q = elim (save_cases now i db) [
    | inl e ↦ rw e (inl (closed_room, db, refl, refl))
    | inr (inl e) ↦ rw e (inl (integrity_error, cleared now i db, refl, refl))
    | inr (inr (_, _, e)) ↦ inr (
        (saved-Announced env q (save now i db).0 (save now i db).1).rooms
        ∙ rw e (updated-SameRooms now i db).rooms)
  ]

module _ (env : Env) (q : Queue) where
  -- The recheck agrees with the query: an agent that is available is still online, and has room,
  -- where nothing has been written since.
  pub passes-available :
      (now : ℕ) (db : Db) (p : Permission)
      → Among p db.permissions
      → is_available env now q db p ≡ true
      → passes env q now p.user db ≡ true
  passes-available now db p m h =
      let (on, room) = and_true (is_online_agent env now q db p) (has_capacity env q db p) h in
      let there = any-Among still db.permissions m (online-still on) in
      rw there (rw (can_receive-available env q db p room) (ground arith))
    where
      still : Permission → Bool
      still x =
          not x.is_deleted
          && x.user == p.user
          && x.project == q.sector.project.uuid
          && is_online x.status
          && is_seen env now q x

      online-still : is_online_agent env now q db p ≡ true → still p ≡ true
      online-still on = ground (arith, on)
