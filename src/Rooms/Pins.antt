-- ===== src/Rooms/Pins.antt =====
-- The limit on pins under the writes that `Room.save`, `Room.pin` and `Room.unpin` make
-- (chats/apps/rooms/models.py).
use chats_engine.Prelude.{
  ℕ, ◌≤◌, ◌≡◌, refl, sym, subst, inl, inr, Bool, true, false, not, ◌&&◌, Option, none, some, List,
  [], ◌∷◌, arith, leb, ◌==◌, ==_iff, is_some, same, count_if, any, select, All, Bool-cases,
}
use chats_engine.Store.{Project, Room, RoomPin, Db, attribute_error, Result, err}
use chats_engine.Store.Tables.{find_room, put_room, find_room-put_room}
use chats_engine.Rooms.{
  Instance, user_has_changed, is_active_in, is_closed_row, pin_of, stamped, save, project_of,
}
use chats_engine.Rooms.Pinning.{counts_for, active_pins, add_pin, pin, unpin}
use chats_engine.Rooms.Saving.{cleared, updated, save_cases, updated-SameRooms, stamped-uuid}

abbrev HasRow : List Room → RoomPin → Type 0
HasRow rooms p = is_some (find_room p.room rooms) ≡ true

-- No user has more pins on active rooms of a project than the limit, and pins refer to rooms.
pub record PinsOk (max_pins : ℕ) (db : Db) : Type 0 where
  pub within : (user project : ℕ) → active_pins user project db ≤ max_pins
  pub rows : All (HasRow db.rooms) db.pins

module _ {ℓ} {A : Type ℓ} where
  count-select_le : (p q : A → Bool) (xs : List A) → count_if q (select p xs) ≤ count_if q xs
  count-select_le p q [] = omega arith
  count-select_le p q (x ∷ xs) = ground (arith, count-select_le p q xs)

  count_if-mono-All {κ} :
      (P : A → Type κ) (p q : A → Bool) (xs : List A)
      → All P xs
      → ((x : A) → P x → p x ≡ true → q x ≡ true)
      → count_if p xs ≤ count_if q xs
  count_if-mono-All P p q [] a h = omega arith
  count_if-mono-All P p q (x ∷ xs) a h = ground (arith, h x a.0, count_if-mono-All P p q xs a.1 h)

  All-map {κ μ} :
      (P : A → Type κ) (Q : A → Type μ) (xs : List A) → ((x : A) → P x → Q x) → All P xs → All Q xs
  All-map P Q [] f a = tt
  All-map P Q (x ∷ xs) f a = (f x a.0, All-map P Q xs f a.1)

All-select {ℓ κ} :
    {A : Type ℓ} (P : A → Type κ) (p : A → Bool) (xs : List A) → All P xs → All P (select p xs)
All-select P p [] a = tt
All-select P p (x ∷ xs) a = elim (Bool-cases (p x)) [
  | inl keep ↦ rw keep (a.0, All-select P p xs a.1)
  | inr drop ↦ rw drop (All-select P p xs a.1)
]

-- A row that a save may write over: there is none, or it is an open room.
abbrev IsOpen : ℕ → List Room → Type 0
IsOpen uuid rooms = is_some (find_room uuid rooms) ≡ true → is_active_in uuid rooms ≡ some true

IsOpen-row :
    (i : Instance) (db : Db)
    → (i.adding ≡ true → find_room i.room.uuid db.rooms ≡ none)
    → (not i.adding && is_closed_row (is_active_in i.room.uuid db.rooms)) ≡ false
    → IsOpen i.room.uuid db.rooms
IsOpen-row i db fresh open_ some_row = ground (arith, fresh)

module _ (r : Room) (rooms : List Room) where
  HasRow-put_room : (p : RoomPin) → HasRow rooms p → HasRow (put_room r rooms) p
  HasRow-put_room p h = rw (find_room-put_room p.room r rooms) (ground (arith, h))

  counts_for-put_room :
      (user project : ℕ) (p : RoomPin)
      → IsOpen r.uuid rooms
      → HasRow rooms p
      → counts_for user project (put_room r rooms) p ≡ true
      → counts_for user project rooms p ≡ true
  counts_for-put_room user project p open_ row h = elim (Bool-cases (r.uuid == p.room)) [
    | inl hit ↦
        let e = (==_iff r.uuid p.room).0 hit in
        let o = subst (λ u. IsOpen u rooms) e open_ row in
        ground (arith, h, o, find_room-put_room p.room r rooms)
    | inr miss ↦ ground (arith, h, miss, find_room-put_room p.room r rooms)
  ]

module _ (max_pins : ℕ) where
  pub PinsOk-select :
      (db db' : Db) (keep : RoomPin → Bool)
      → db'.rooms ≡ db.rooms
      → db'.pins ≡ select keep db.pins
      → PinsOk max_pins db
      → PinsOk max_pins db'
  PinsOk-select db db' keep e f h = record {
    within = λ u p.
        rw (e, f)
          (omega (arith, count-select_le keep (counts_for u p db.rooms) db.pins, h.within u p));
    rows = rw (e, f) (All-select (HasRow db.rooms) keep db.pins h.rows);
  }

  PinsOk-put_room :
      (db db' : Db) (r : Room)
      → IsOpen r.uuid db.rooms
      → db'.rooms ≡ put_room r db.rooms
      → db'.pins ≡ db.pins
      → PinsOk max_pins db
      → PinsOk max_pins db'
  PinsOk-put_room db db' r open_ e f h = record {
    within = λ u p.
        rw (e, f)
          (omega (
            arith,
            count_if-mono-All (HasRow db.rooms) (counts_for u p (put_room r db.rooms))
                (counts_for u p db.rooms) db.pins h.rows
                (λ x row c. counts_for-put_room r db.rooms u p x open_ row c),
            h.within u p,
          ));
    rows =
        rw (e, f)
          (All-map (HasRow db.rooms) (HasRow (put_room r db.rooms)) db.pins
            (λ x row. HasRow-put_room r db.rooms x row) h.rows);
  }

  pub PinsOk-cong :
      (db db' : Db)
      → db'.rooms ≡ db.rooms
      → db'.pins ≡ db.pins
      → PinsOk max_pins db
      → PinsOk max_pins db'
  PinsOk-cong db db' e f h = record {
    within = λ u p. rw (e, f) (h.within u p);
    rows = rw (e, f) h.rows;
  }

  PinsOk-cleared :
      (now : ℕ) (i : Instance) (db : Db) → PinsOk max_pins db → PinsOk max_pins (cleared now i db)
  PinsOk-cleared now i db h = elim (Bool-cases (user_has_changed i)) [
    | inl changed ↦ PinsOk-select db _ (λ p. not (pin_of i.room.uuid p)) refl (rw changed refl) h
    | inr same_user ↦ PinsOk-cong db _ refl (rw same_user refl) h
  ]

  pub PinsOk-save :
      (now : ℕ) (i : Instance) (db : Db)
      → (i.adding ≡ true → find_room i.room.uuid db.rooms ≡ none)
      → PinsOk max_pins db
      → PinsOk max_pins (save now i db).1
  PinsOk-save now i db fresh h = elim (save_cases now i db) [
    | inl e ↦ rw e h
    | inr (inl e) ↦ rw e (PinsOk-cleared now i db h)
    | inr (inr (open_, _, e)) ↦ rw e (
        PinsOk-put_room (cleared now i db) (updated now i db) (stamped now i)
          (subst (λ u. IsOpen u db.rooms) (sym (stamped-uuid now i)) (IsOpen-row i db fresh open_))
          (updated-SameRooms now i db).rooms (updated-SameRooms now i db).pins
          (PinsOk-cleared now i db h))
  ]

  PinsOk-add_pin :
      (user : ℕ) (r : Room) (project : Project) (db : Db)
      → find_room r.uuid db.rooms ≡ some r
      → PinsOk max_pins db
      → PinsOk max_pins (add_pin max_pins user r project db).1
  unfolding add_pin
  PinsOk-add_pin user r project db row h =
      elim (Bool-cases (leb max_pins (active_pins user project.uuid db))) [
        | inl full ↦ rw (full, add_pin) h
        | inr room_left ↦ elim (Bool-cases (not (same r.user (some user)))) [
          | inl other ↦ rw (room_left, add_pin) (rw other h)
          | inr own ↦ elim (Bool-cases (not r.is_active)) [
            | inl closed ↦ rw (room_left, add_pin) (rw own (rw closed h))
            | inr active ↦
                rw (room_left, add_pin)
                  (rw own (
                    rw active (record {
                      within = λ u p. ground (arith, h.within u p, room_left, row);
                      rows = (rw row refl, h.rows);
                    })))
          ]
        ]
      ]

  PinsOk-pin_in :
      (user : ℕ) (r : Room) (db : Db)
      → find_room r.uuid db.rooms ≡ some r
      → PinsOk max_pins db
      → (o : Option Project)
      → PinsOk max_pins (
          let s : Result (Unit {0}) × Db = elim o [
            | none ↦ (err attribute_error, db)
            | some project ↦ add_pin max_pins user r project db
          ] in
          s.1)
  PinsOk-pin_in user r db row h none = h
  PinsOk-pin_in user r db row h (some project) = PinsOk-add_pin user r project db row h

  -- The pin that `pin` adds counts once, for its user and project, on its own room.
  pub PinsOk-pin :
      (user : ℕ) (r : Room) (db : Db)
      → find_room r.uuid db.rooms ≡ some r
      → PinsOk max_pins db
      → PinsOk max_pins (pin max_pins user r db).1
  unfolding pin
  PinsOk-pin user r db row h =
      elim (Bool-cases (any (λ p. pin_of r.uuid p && p.user == user) db.pins)) [
        | inl pinned ↦ rw (pinned, pin) h
        | inr new ↦ rw (new, pin) (PinsOk-pin_in user r db row h (project_of r.queue))
      ]

  pub PinsOk-unpin :
      (user : ℕ) (r : Room) (db : Db) → PinsOk max_pins db → PinsOk max_pins (unpin user r db).1
  unfolding unpin
  PinsOk-unpin user r db h = elim (Bool-cases (same r.user (some user))) [
    | inl own ↦
        rw (own, unpin)
          (PinsOk-select db _ (λ p. not (pin_of r.uuid p && p.user == user)) refl refl h)
    | inr other ↦ rw (other, unpin) h
  ]
