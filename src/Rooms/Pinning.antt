-- ===== src/Rooms/Pinning.antt =====
-- `Room.pin` and `Room.unpin` (chats/apps/rooms/models.py).
use chats_engine.Prelude.{
  ℕ, Bool, false, not, ◌&&◌, none, some, List, ◌∷◌, leb, ◌==◌, if◌then◌else◌, same, count_if, any,
  select,
}
use chats_engine.Store.{
  Project, Room, RoomPin, Db, attribute_error, permission_denied, max_pin_limit, room_not_active,
  Result, ok, err,
}
use chats_engine.Rooms.{project_of, is_active_in, pin_of}

-- `RoomPin.objects.filter(user=user, project=project, room__is_active=True).count()`
abbrev pub counts_for : ℕ → ℕ → List Room → RoomPin → Bool
counts_for user project rooms p =
    p.user == user
    && p.project == project
    && (elim (is_active_in p.room rooms) [ none ↦ false | some b ↦ b ])

abbrev pub active_pins : ℕ → ℕ → Db → ℕ
active_pins user project db = count_if (counts_for user project db.rooms) db.pins

unfoldable pub add_pin : ℕ → ℕ → Room → Project → Db → Result (Unit {0}) × Db
add_pin max_pins user r project db =
    if leb max_pins (active_pins user project.uuid db)
    then (err max_pin_limit, db)
    else if not (same r.user (some user))
    then (err permission_denied, db)
    else if not r.is_active
    then (err room_not_active, db)
    else (
      ok tt,
      record db { pins = record { room = r.uuid; user = user; project = project.uuid } ∷ db.pins },
    )

-- `max_pins` is MAX_ROOM_PINS_LIMIT.
unfoldable pub pin : ℕ → ℕ → Room → Db → Result (Unit {0}) × Db
pin max_pins user r db =
    if any (λ p. pin_of r.uuid p && p.user == user) db.pins
    then (ok tt, db)
    else elim (project_of r.queue) [
      | none ↦ (err attribute_error, db)
      | some project ↦ add_pin max_pins user r project db
    ]

unfoldable pub unpin : ℕ → Room → Db → Result (Unit {0}) × Db
unpin user r db =
    if same r.user (some user)
    then (ok tt, record db { pins = select (λ p. not (pin_of r.uuid p && p.user == user)) db.pins })
    else (err permission_denied, db)
