-- ===== src/Rooms/History.antt =====
-- The limit on pins, and that closed rooms stay closed, over every history of saves, closures, pins
-- and unpins (chats/apps/rooms/models.py).
use chats_engine.Prelude.{
  ℕ, ◌≡◌, refl, ap, sym, subst, ◌∙◌, inl, inr, String, Bool, true, false, not, ◌&&◌, Option, none,
  some, List, arith, ◌==◌, ==_iff, select, Bool-cases, any,
}
use chats_engine.Store.{attribute_error, Room, Project, Db, Result, err}
use chats_engine.Store.Tables.{find_room, find_room-put_room}
use chats_engine.InService.{Celery}
use chats_engine.Rooms.{
  is_closed_row, Instance, is_active_in, pin_of, stamped, save, closing, with_close_tags,
  clear_pins, close, project_of,
}
use chats_engine.Rooms.Pinning.{add_pin, pin, unpin}
use chats_engine.Rooms.Saving.{cleared, save_cases, updated-SameRooms, stamped-uuid}
use chats_engine.Rooms.Pins.{
  PinsOk, PinsOk-select, PinsOk-cong, PinsOk-save, PinsOk-pin, PinsOk-unpin,
}
use chats_engine.Rooms.Finishing.{finish_close_cases}

-- One call. A new room has a fresh primary key; a room that is closed or pinned is loaded from its
-- row, or has been saved before.
pub data Step (max_pins : ℕ) (db : Db) : Db → Type 0 where
  saves :
      (now : ℕ) (i : Instance)
      → (i.adding ≡ true → find_room i.room.uuid db.rooms ≡ none)
      → Step max_pins db (save now i db).1
  closes :
      (celery : Celery) (now : ℕ) (tags : Option (List ℕ)) (end_by : String) (closed_by : Option ℕ)
      (i : Instance)
      → i.adding ≡ false
      → Step max_pins db (close celery now tags end_by closed_by i db).1
  pins :
      (user : ℕ) (r : Room)
      → find_room r.uuid db.rooms ≡ some r
      → Step max_pins db (pin max_pins user r db).1
  unpins : (user : ℕ) (r : Room) → Step max_pins db (unpin user r db).1

pub data Reach (max_pins : ℕ) (db : Db) : Db → Type 0 where
  here : Reach max_pins db db
  next : {a b : Db} → Reach max_pins db a → Step max_pins a b → Reach max_pins db b

module _ (max_pins : ℕ) where
  PinsOk-close :
      (celery : Celery) (now : ℕ) (tags : Option (List ℕ)) (end_by : String) (closed_by : Option ℕ)
      (i : Instance) (db : Db)
      → i.adding ≡ false
      → PinsOk max_pins db
      → PinsOk max_pins (close celery now tags end_by closed_by i db).1
  unfolding close
  PinsOk-close celery now tags end_by closed_by i db old h =
      elim (finish_close_cases celery now db (save now c start).0 (save now c start).1) [
        | inl e ↦ rw e h
        | inr (j, _, s) ↦ PinsOk-cong max_pins (save now c start).1 _ s.rooms s.pins (
            PinsOk-save max_pins now c start (λ e. absurd (ground (arith, e, old)))
              (PinsOk-select max_pins db start (λ p. not (pin_of i.room.uuid p)) (tags_rooms tags)
                (tags_pins tags) h))
      ]
    where
      c : Instance
      c = closing now end_by closed_by i

      start : Db
      start = clear_pins i.room.uuid (with_close_tags i.room.uuid tags db)

      tags_rooms : (t : Option (List ℕ)) → (with_close_tags i.room.uuid t db).rooms ≡ db.rooms
      tags_rooms none = refl
      tags_rooms (some t) = refl

      tags_pins :
          (t : Option (List ℕ))
          → (clear_pins i.room.uuid (with_close_tags i.room.uuid t db)).pins
            ≡ select (λ p. not (pin_of i.room.uuid p)) db.pins
      tags_pins none = refl
      tags_pins (some t) = refl

  Step-PinsOk : {a b : Db} → Step max_pins a b → PinsOk max_pins a → PinsOk max_pins b
  Step-PinsOk {a} (saves now i fresh) h = PinsOk-save max_pins now i a fresh h
  Step-PinsOk {a} (closes celery now tags end_by closed_by i old) h =
      PinsOk-close celery now tags end_by closed_by i a old h
  Step-PinsOk {a} (pins user r row) h = PinsOk-pin max_pins user r a row h
  Step-PinsOk {a} (unpins user r) h = PinsOk-unpin max_pins user r a h

  -- Whatever rooms are saved, closed, pinned and unpinned, and whichever of these calls fail, no
  -- user ever has more pins on active rooms of a project than the limit, and every pin has its room.
  pub Reach-PinsOk : {a b : Db} → PinsOk max_pins a → Reach max_pins a b → PinsOk max_pins b
  Reach-PinsOk h here = h
  Reach-PinsOk h (next r s) = Step-PinsOk s (Reach-PinsOk h r)

-- A row of a closed room.
record Shut (uuid : ℕ) (r : Room) (db : Db) : Type 0 where
  row : find_room uuid db.rooms ≡ some r
  closed : r.is_active ≡ false

Shut-cong : {uuid : ℕ} {r : Room} (a b : Db) → b.rooms ≡ a.rooms → Shut uuid r a → Shut uuid r b
Shut-cong {uuid} {r} a b e s = record {
  row = subst (λ t. find_room uuid t ≡ some r) (sym e) s.row;
  closed = s.closed;
}

abbrev active_of : Option Room → Option Bool
active_of none = none
active_of (some r) = some r.is_active

found_none : {r : Room} → ¬ (none ≡ some r)
found_none {r} e = ground (arith, e)

refused :
    {a : Bool} {o : Option Bool}
    → a ≡ false
    → o ≡ some false
    → ¬ ((not a && is_closed_row o) ≡ false)
refused {a} {o} old shut h = ground (
  arith,
  subst (λ x. (not x && is_closed_row (some false)) ≡ false) old
      (subst (λ x. (not a && is_closed_row x) ≡ false) shut h),
)

not_saved :
    (now : ℕ) (i : Instance) (db : Db) {uuid : ℕ} {r : Room}
    → (i.adding ≡ true → find_room i.room.uuid db.rooms ≡ none)
    → (not i.adding && is_closed_row (is_active_in i.room.uuid db.rooms)) ≡ false
    → Shut uuid r db
    → (i.room.uuid == uuid) ≡ false
not_saved now i db {uuid} {r} fresh refuses s = elim (Bool-cases (i.room.uuid == uuid)) [
  | inr e ↦ e
  | inl e ↦
      let row : find_room i.room.uuid db.rooms ≡ some r =
        subst (λ u. find_room u db.rooms ≡ some r) (sym ((==_iff i.room.uuid uuid).0 e)) s.row in
      elim (Bool-cases i.adding) [
        | inl new ↦ absurd (found_none (sym (fresh new) ∙ row))
        | inr old ↦ absurd (refused old (ap active_of row ∙ ap some s.closed) refuses)
      ]
]

Shut-save :
    (now : ℕ) (i : Instance) (db : Db) {uuid : ℕ} {r : Room}
    → (i.adding ≡ true → find_room i.room.uuid db.rooms ≡ none)
    → Shut uuid r db
    → Shut uuid r (save now i db).1
Shut-save now i db {uuid} {r} fresh s = elim (save_cases now i db) [
  | inl e ↦ rw e s
  | inr (inl e) ↦ rw e (Shut-cong db (cleared now i db) refl s)
  | inr (inr (open_, _, e)) ↦ rw e record {
    row =
        rw
          (
            (updated-SameRooms now i db).rooms,
            find_room-put_room uuid (stamped now i) db.rooms,
            stamped-uuid now i,
            not_saved now i db fresh open_ s,
          )
          s.row;
    closed = s.closed;
  }
]

add_pin-rooms :
    (max_pins user : ℕ) (r : Room) (project : Project) (db : Db)
    → (add_pin max_pins user r project db).1.rooms ≡ db.rooms
unfolding add_pin
add_pin-rooms max_pins user r project db = ground arith

pin-rooms : (max_pins user : ℕ) (r : Room) (db : Db) → (pin max_pins user r db).1.rooms ≡ db.rooms
unfolding pin
pin-rooms max_pins user r db =
    elim (Bool-cases (any (λ p. pin_of r.uuid p && p.user == user) db.pins)) [
      | inl there ↦ rw there refl
      | inr new ↦ rw new (fresh (project_of r.queue))
    ]
  where
    fresh :
        (o : Option Project)
        → (let s : Result (Unit {0}) × Db = elim o [
          | none ↦ (err attribute_error, db)
          | some project ↦ add_pin max_pins user r project db
        ] in
            s.1.rooms)
          ≡ db.rooms
    fresh none = refl
    fresh (some project) = add_pin-rooms max_pins user r project db

unpin-rooms : (user : ℕ) (r : Room) (db : Db) → (unpin user r db).1.rooms ≡ db.rooms
unfolding unpin
unpin-rooms user r db = ground arith

module _ (max_pins : ℕ) {uuid : ℕ} {r : Room} where
  Shut-close :
      (celery : Celery) (now : ℕ) (tags : Option (List ℕ)) (end_by : String) (closed_by : Option ℕ)
      (i : Instance) (db : Db)
      → i.adding ≡ false
      → Shut uuid r db
      → Shut uuid r (close celery now tags end_by closed_by i db).1
  unfolding close
  Shut-close celery now tags end_by closed_by i db old s =
      let c = closing now end_by closed_by i in
      let start = clear_pins i.room.uuid (with_close_tags i.room.uuid tags db) in
      elim (finish_close_cases celery now db (save now c start).0 (save now c start).1) [
        | inl e ↦ rw e s
        | inr (j, _, t) ↦ Shut-cong (save now c start).1 _ t.rooms (
            Shut-save now c start (λ e. absurd (ground (arith, e, old)))
              (Shut-cong db start (tags_rooms tags) s))
      ]
    where
      tags_rooms :
          (t : Option (List ℕ))
          → (clear_pins i.room.uuid (with_close_tags i.room.uuid t db)).rooms ≡ db.rooms
      tags_rooms none = refl
      tags_rooms (some t) = refl

  Step-Shut : {a b : Db} → Step max_pins a b → Shut uuid r a → Shut uuid r b
  Step-Shut {a} (saves now i fresh) s = Shut-save now i a fresh s
  Step-Shut {a} (closes celery now tags end_by closed_by i old) s =
      Shut-close celery now tags end_by closed_by i a old s
  Step-Shut {a} (pins user r row) s = Shut-cong a _ (pin-rooms max_pins user r a) s
  Step-Shut {a} (unpins user r) s = Shut-cong a _ (unpin-rooms user r a) s

  Reach-Shut : {a b : Db} → Shut uuid r a → Reach max_pins a b → Shut uuid r b
  Reach-Shut s here = s
  Reach-Shut s (next h x) = Step-Shut x (Reach-Shut s h)

-- The row of a closed room never changes again, whatever rooms are saved, closed, pinned and
-- unpinned, as long as new rooms have fresh primary keys and only stored rooms are closed.
pub Reach-closed :
    (max_pins uuid : ℕ) (r : Room) (a b : Db)
    → find_room uuid a.rooms ≡ some r
    → r.is_active ≡ false
    → Reach max_pins a b
    → find_room uuid b.rooms ≡ some r
Reach-closed max_pins uuid r a b row closed h =
    (Reach-Shut max_pins record { row = row; closed = closed } h).row
