-- ===== src/Rooms/Saving.antt =====
-- What `Room.save` (chats/apps/rooms/models.py) writes.
use chats_engine.Prelude.{
  ℕ, ◌≡◌, refl, ap, sym, subst, ◌∙◌, ◌⊎◌, inl, inr, Bool, true, false, not, ◌&&◌, ◌||◌, Option,
  none, some, List, [], ◌∷◌, arith, if◌then◌else◌, is_some, same, count_if, select, Bool-cases,
}
use chats_engine.Store.{Project, Room, RoomPin, Db, closed_room, integrity_error, ok, err}
use chats_engine.Store.Tables.{find_room, put_room, find_room-put_room_self}
use chats_engine.InService.{always_sends, room_assigned, room_closed}
use chats_engine.InService.Frame.{
  SameRooms, SameRooms-refl, SameRooms-trans, room_assigned-SameRooms, room_closed-SameRooms,
}
use chats_engine.Rooms.{
  Instance, load, user_has_changed, is_active_in, user_in, pin_of, clear_pins_if, clear_tags_if,
  agent_service, update_agent_service_status, stamped, violates_unique, sector_has_changed, write,
  is_closed_row, save, project_of,
}

pub SameRooms-if :
    (b : Bool) (db x y : Db) → SameRooms db x → SameRooms db y → SameRooms db (if b then x else y)
SameRooms-if true db x y p q = p
SameRooms-if false db x y p q = q

agent_service-SameRooms :
    (now : ℕ) (is_new : Bool) (old new : Option ℕ) (project : Option Project) (db : Db)
    → SameRooms db (agent_service now is_new old new project db)
unfolding agent_service
agent_service-SameRooms now is_new old new project db =
    let assigned = room_assigned-SameRooms now new project db in
    let closed = room_closed-SameRooms always_sends now old project db in
    let x = room_assigned now new project db in
    let y = (room_closed always_sends now old project db).1 in
    let z = room_assigned now new project y in
    SameRooms-if (is_new && is_some new) db x _ assigned (
      SameRooms-if (not (is_some old) && is_some new) db x _ assigned (
        SameRooms-if (is_some old && is_some new && not (same old new)) db z _
          (SameRooms-trans db y z closed (room_assigned-SameRooms now new project y))
          (SameRooms-if (is_some old && not (is_some new)) db y db closed (SameRooms-refl db))))

pub update-SameRooms :
    (now : ℕ) (is_new : Bool) (r : Room) (db : Db)
    → SameRooms db (update_agent_service_status now is_new r db)
unfolding update_agent_service_status
update-SameRooms now is_new r db =
    SameRooms-if (is_some r.queue) db _ _ (agent_service-SameRooms now is_new _ r.user _ db)
      (SameRooms-refl db)

-- A room with a user has the time of its assignment, and, while it is active, that of the first.
abbrev pub is_stamped : Room → Bool
is_stamped r =
    (not (is_some r.user) || is_some r.user_assigned_at)
    && (not (is_some r.user && r.is_active) || is_some r.first_user_assigned_at)

module _ (now : ℕ) (i : Instance) where
  pub stamped-uuid : (stamped now i).uuid ≡ i.room.uuid
  unfolding stamped
  stamped-uuid = ground arith

  pub stamped-user : (stamped now i).user ≡ i.room.user
  unfolding stamped
  stamped-user = ground arith

  pub stamped-queue : (stamped now i).queue ≡ i.room.queue
  unfolding stamped
  stamped-queue = ground arith

  -- What the stamps of a saved room are.
  stamped_lem :
      let r = stamped now i in
      (is_stamped r ≡ true)
      × (r.first_user_assigned_at ≡ (
          if is_some i.room.first_user_assigned_at
          then i.room.first_user_assigned_at
          else r.first_user_assigned_at))
      × (r.user_assigned_at ≡ (
          if user_has_changed i
          then some now
          else if is_some i.room.user_assigned_at
          then i.room.user_assigned_at
          else if is_some i.room.user
          then some now
          else none))
      × (r.added_to_queue_at ≡ (
          if i.adding || user_has_changed i && not (is_some i.room.user)
          then some now
          else i.room.added_to_queue_at))
  unfolding stamped
  stamped_lem = ground arith

module _ (now : ℕ) (i : Instance) (db : Db) where
  -- The database without the pins of a room whose user has changed, with the room's new row, and
  -- with the tags that go when the sector has changed.
  abbrev pub cleared : Db
  cleared = clear_pins_if (user_has_changed i) i.room.uuid db

  abbrev tidied : Db
  tidied =
      clear_tags_if (sector_has_changed i.tracked_queue (stamped now i).queue) (stamped now i).uuid
        (record cleared { rooms = put_room (stamped now i) db.rooms })

  abbrev pub updated : Db
  updated = update_agent_service_status now i.adding (stamped now i) tidied

  abbrev pub refuses : Bool
  refuses = not i.adding && is_closed_row (is_active_in i.room.uuid db.rooms)

  pub save-refused : refuses ≡ true → save now i db ≡ (err closed_room, db)
  unfolding save
  save-refused shut = rw (shut, save) refl

  -- A room that is not active clashes with none.
  pub save-inactive :
      refuses ≡ false
      → (stamped now i).is_active ≡ false
      → save now i db ≡ (ok (load (stamped now i)), updated)
  unfolding save write
  save-inactive open_ off =
      let unique : violates_unique (stamped now i) db.rooms ≡ false = rw off refl in
      rw (open_, save) (rw (unique, write) refl)

  -- The three ends of a save.
  pub save_cases :
      (save now i db ≡ (err closed_room, db))
      ⊎ (save now i db ≡ (err integrity_error, cleared))
      ⊎ ((refuses ≡ false)
          × (violates_unique (stamped now i) db.rooms ≡ false)
          × (save now i db ≡ (ok (load (stamped now i)), updated)))
  unfolding save write
  save_cases = elim (Bool-cases refuses) [
    | inl shut ↦ inl (rw (shut, save) refl)
    | inr open_ ↦ elim (Bool-cases (violates_unique (stamped now i) db.rooms)) [
      | inl clash ↦ inr (inl (rw (open_, save) (rw (clash, write) refl)))
      | inr unique ↦ inr (inr (open_, unique, rw (open_, save) (rw (unique, write) refl)))
    ]
  ]

  save_ok :
      {j : Instance} {db' : Db}
      → save now i db ≡ (ok j, db')
      → (refuses ≡ false)
        × (violates_unique (stamped now i) db.rooms ≡ false)
        × (j ≡ load (stamped now i))
        × (db' ≡ updated)
  save_ok h = elim save_cases [
    | inl e ↦ absurd (ground (arith, e, h))
    | inr (inl e) ↦ absurd (ground (arith, e, h))
    | inr (inr (a, b, e)) ↦ (a, b, ground (arith, e, h), ground (arith, e, h))
  ]

  pub updated-SameRooms : SameRooms tidied updated
  updated-SameRooms = update-SameRooms now i.adding (stamped now i) tidied

pub count_cleared :
    (room : ℕ) (pins : List RoomPin)
    → count_if (pin_of room) (select (λ p. not (pin_of room p)) pins) ≡ 0
count_cleared room [] = refl
count_cleared room (p ∷ pins) = ground (arith, count_cleared room pins)

module _ (now : ℕ) (i j : Instance) (db db' : Db) (saved : save now i db ≡ (ok j, db')) where
  pins_after :
      db'.pins
      ≡ (if user_has_changed i then select (λ p. not (pin_of i.room.uuid p)) db.pins else db.pins)
  pins_after =
      ap (λ (d : Db). d.pins) (save_ok now i db saved).3 ∙ (updated-SameRooms now i db).pins

  rooms_after : db'.rooms ≡ put_room (stamped now i) db.rooms
  rooms_after =
      ap (λ (d : Db). d.rooms) (save_ok now i db saved).3 ∙ (updated-SameRooms now i db).rooms

  count_after :
      (b : Bool)
      → count_if
          (pin_of i.room.uuid)
          (if b then select (λ p. not (pin_of i.room.uuid p)) db.pins else db.pins)
        ≡ (if b then 0 else count_if (pin_of i.room.uuid) db.pins)
  count_after true = count_cleared i.room.uuid db.pins
  count_after false = refl

  -- A save that succeeds stores the room that it returns, with its user. A room with a user has the
  -- time of its assignment, and, while it is active, that of its first assignment. The time of the
  -- first assignment never changes once it is set; that of the last is now where the user has
  -- changed, and stays otherwise, if it is set. The room's pins are gone where its user has changed.
  -- Its time in the queue is now where the room is new or has lost its user.
  pub save-stamps :
      let r = j.room in
      (find_room i.room.uuid db'.rooms ≡ some r)
      × (r.user ≡ i.room.user)
      × (is_stamped r ≡ true)
      × (r.first_user_assigned_at ≡ (
          if is_some i.room.first_user_assigned_at
          then i.room.first_user_assigned_at
          else r.first_user_assigned_at))
      × (r.user_assigned_at ≡ (
          if user_has_changed i
          then some now
          else if is_some i.room.user_assigned_at
          then i.room.user_assigned_at
          else if is_some i.room.user
          then some now
          else none))
      × (r.added_to_queue_at ≡ (
          if i.adding || user_has_changed i && not (is_some i.room.user)
          then some now
          else i.room.added_to_queue_at))
      × (count_if (pin_of i.room.uuid) db'.pins
          ≡ (if user_has_changed i then 0 else count_if (pin_of i.room.uuid) db.pins))
  save-stamps =
      let s = stamped_lem now i in
      rw (save_ok now i db saved).2 (
        subst (λ u. find_room u db'.rooms ≡ some (stamped now i)) (stamped-uuid now i)
            (rw rooms_after (find_room-put_room_self (stamped now i) db.rooms)),
        stamped-user now i,
        s.0,
        s.1,
        s.2,
        s.3,
        rw pins_after (count_after (user_has_changed i)),
      )

agent_service_same :
    (now : ℕ) (user : Option ℕ) (project : Option Project) (db : Db)
    → agent_service now false user user project db ≡ db
unfolding agent_service
agent_service_same now none project db = refl
agent_service_same now (some u) project db = ground arith

abbrev user_of : Option Room → Option ℕ
user_of none = none
user_of (some r) = r.user

if_same : (b : Bool) (x y : Db) → x ≡ y → (if b then x else y) ≡ y
if_same true x y e = e
if_same false x y e = refl

update_same :
    (now : ℕ) (r : Room) (db : Db)
    → user_in r.uuid db.rooms ≡ r.user
    → update_agent_service_status now false r db ≡ db
unfolding update_agent_service_status
update_same now r db e =
    rw e (if_same (is_some r.queue) _ db (agent_service_same now r.user (project_of r.queue) db))

updated_existing :
    (now : ℕ) (i : Instance) (db : Db) → i.adding ≡ false → updated now i db ≡ tidied now i db
updated_existing now i db old =
    subst
      (λ b. update_agent_service_status now b (stamped now i) (tidied now i db) ≡ tidied now i db)
      (sym old)
      (update_same now (stamped now i) (tidied now i db)
        (ap user_of (find_room-put_room_self (stamped now i) db.rooms)))

-- Saving a room that is stored already records no change of the In-Service status, whoever the room
-- goes from or to: the statuses and what is sent out are as before. The room's user is read again
-- after the new row is written, so the old user is always the new one.
pub save_existing-statuses :
    (now : ℕ) (i : Instance) (db : Db)
    → i.adding ≡ false
    → ((save now i db).1.statuses ≡ db.statuses) × ((save now i db).1.outbox ≡ db.outbox)
save_existing-statuses now i db old = elim (save_cases now i db) [
  | inl e ↦ rw e (refl, refl)
  | inr (inl e) ↦ rw e (refl, refl)
  | inr (inr (_, _, e)) ↦ rw (e, updated_existing now i db old) (refl, refl)
]
