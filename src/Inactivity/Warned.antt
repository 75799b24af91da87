-- ===== src/Inactivity/Warned.antt =====
-- Which rooms a run of warnings leaves alone (chats/apps/rooms/usecases/inactivity.py).
use chats_engine.Prelude.{
  ℕ, suc, ◌≡◌, refl, ap, sym, subst, ◌∙◌, inl, inr, String, Bool, true, false, not, ◌&&◌, Option,
  none, some, List, [], ◌∷◌, map, leb, ◌==◌, ==_iff, if◌then◌else◌, is_some, select, All,
  Bool-cases, arith, str_eq,
}
use chats_engine.Store.{Queue, Permission, Room, Db, Result, ok, err}
use chats_engine.Store.Tables.{find_room, Distinct}
use chats_engine.Inactivity.{
  Message, State, MessageType, is_24h_valid, create_message, after_create, send_silent,
  eligible_warn, due_for_warning, inactive_warning,
}
use chats_engine.Inactivity.Service.{
  notify_inactivity, mark_inactive, warning_text, warn_room, warned_after, warn_loop,
  warn_inactive_rooms, to_permission, inactivity_event,
}

-- An update that keeps the keys, of rows other than `u`, leaves the row of `u`.
find_room-update :
    (u : ℕ) (p : Room → Bool) (f : Room → Room) (rooms : List Room)
    → ((r : Room) → (f r).uuid ≡ r.uuid)
    → ((r : Room) → (r.uuid == u) ≡ true → p r ≡ false)
    → find_room u (map (λ r. if p r then f r else r) rooms) ≡ find_room u rooms
unfolding find_room
find_room-update u p f [] k h = refl
find_room-update u p f (x ∷ xs) k h = elim (Bool-cases (x.uuid == u)) [
  | inl hit ↦ rw (h x hit) (rw hit refl)
  | inr miss ↦ elim (Bool-cases (p x)) [
    | inl e ↦ rw e (rw (k x) (rw miss (find_room-update u p f xs k h)))
    | inr e ↦ rw e (rw miss (find_room-update u p f xs k h))
  ]
]

module _ (u : ℕ) where
  is_24h_valid-rooms : (now : ℕ) (r : Room) (s : State) → (is_24h_valid now r s).1.db ≡ s.db
  unfolding is_24h_valid
  is_24h_valid-rooms now r s = ground arith

  create_message-rooms :
      (now : ℕ) (r : Room) (user : Option ℕ) (text : String) (type : Option MessageType) (s : State)
      → (create_message now r user text type s).1.db.rooms ≡ s.db.rooms
  unfolding create_message is_24h_valid
  create_message-rooms now r user text type s =
      let same_db = ap (λ (d : Db). d.rooms) (is_24h_valid-rooms now r s) in
      elim (Bool-cases r.is_active) [
        | inr shut ↦ rw shut refl
        | inl open_ ↦ rw open_ (elim (Bool-cases (not (is_24h_valid now r s).0 && is_some user)) [
          | inl late ↦ rw late same_db
          | inr fine ↦ rw fine same_db
        ])
      ]

  elsewhere :
      (room : ℕ) (x : Room) → (room == u) ≡ false → (x.uuid == u) ≡ true → (x.uuid == room) ≡ false
  elsewhere room x miss hit = ground (arith, miss, hit)

  after_create-row :
      (r : Room) (user : Option ℕ) (before : State) (x : Result Message × State)
      → (r.uuid == u) ≡ false
      → x.1.db.rooms ≡ before.db.rooms
      → find_room u (after_create r user before x).1.db.rooms ≡ find_room u before.db.rooms
  after_create-row r user before (err e, s) miss h = refl
  after_create-row r user before (ok m, s) miss h =
      find_room-update u (λ x. x.uuid == r.uuid)
        (λ x. record x {
          last_message = some m.uuid;
          last_message_user = user;
          last_message_contact = none;
        })
        s.db.rooms (λ x. refl) (λ x hit. elsewhere r.uuid x miss hit)
      ∙ ap (find_room u) h

  send_silent-row :
      (now : ℕ) (r : Room) (text : String) (user : Option ℕ) (type : MessageType) (s : State)
      → (r.uuid == u) ≡ false
      → find_room u (send_silent now r text user type s).1.db.rooms ≡ find_room u s.db.rooms
  unfolding send_silent
  send_silent-row now r text user type s miss = elim (Bool-cases (str_eq text "")) [
    | inl blank ↦ rw blank refl
    | inr said ↦ rw said (
        after_create-row r user s (create_message now r user text (some type) s) miss
          (create_message-rooms now r user text (some type) s))
  ]

  to_permission-rooms :
      (room : ℕ) (action : String) (o : Option Permission) (db : Db)
      → (to_permission room action o db).rooms ≡ db.rooms
  to_permission-rooms room action none db = refl
  to_permission-rooms room action (some p) db = refl

  pub inactivity_event-rooms :
      (room : ℕ) (user : Option ℕ) (o : Option Queue) (db : Db)
      → (inactivity_event room user o db).rooms ≡ db.rooms
  inactivity_event-rooms room user none db = refl
  inactivity_event-rooms room none (some q) db = refl
  inactivity_event-rooms room (some user) (some q) db = to_permission-rooms room _ _ db

  marked-row :
      (r : Room) (s : State)
      → (r.uuid == u) ≡ false
      → find_room u (notify_inactivity r (mark_inactive r.uuid s)).db.rooms ≡ find_room u s.db.rooms
  marked-row r s miss =
      ap (find_room u) (inactivity_event-rooms r.uuid r.user r.queue (mark_inactive r.uuid s).db)
      ∙ find_room-update u (λ x. x.uuid == r.uuid && not x.is_inactive && x.is_active)
          (λ x. record x { is_inactive = true }) s.db.rooms (λ x. refl)
          (λ x hit. rw (elsewhere r.uuid x miss hit) refl)

  warned_after-row :
      (r : Room) (x : Bool × State)
      → (r.uuid == u) ≡ false
      → find_room u (warned_after r x).1.db.rooms ≡ find_room u x.1.db.rooms
  warned_after-row r (b, s) miss = elim (Bool-cases (not b && not (str_eq (warning_text r) ""))) [
    | inl e ↦ rw e refl
    | inr e ↦ rw e (marked-row r s miss)
  ]

  warn_room-row :
      (now : ℕ) (r : Room) (s : State)
      → (r.uuid == u) ≡ false
      → find_room u (warn_room now r s).1.db.rooms ≡ find_room u s.db.rooms
  unfolding warn_room
  warn_room-row now r s miss =
      warned_after-row r (send_silent now r (warning_text r) r.user inactive_warning s) miss
      ∙ send_silent-row now r (warning_text r) r.user inactive_warning s miss

  warn_loop-row :
      (now most warned : ℕ) (rs : List Room) (s : State)
      → All (λ x. (x.uuid == u) ≡ true → due_for_warning now x ≡ false) rs
      → find_room u (warn_loop now most warned rs s).1.db.rooms ≡ find_room u s.db.rooms
  unfolding warn_loop
  warn_loop-row now most warned [] s a = refl
  warn_loop-row now most warned (r ∷ rs) s a = elim (Bool-cases (leb most warned)) [
    | inl full ↦ rw full refl
    | inr room_for ↦ rw room_for (elim (Bool-cases (due_for_warning now r)) [
      | inr early ↦ rw early (warn_loop-row now most warned rs s a.1)
      | inl due ↦ rw due (
          warn_loop-row now most (if (warn_room now r s).0 then suc warned else warned) rs
            (warn_room now r s).1 a.1
          ∙ warn_room-row now r s (not_it due a.0))
    ])
  ]
    where
      not_it :
          (due_for_warning now r ≡ true)
          → ((r.uuid == u) ≡ true → due_for_warning now r ≡ false)
          → (r.uuid == u) ≡ false
      not_it due f = elim (Bool-cases (r.uuid == u)) [
        | inl hit ↦ absurd (ground (arith, due, f hit))
        | inr miss ↦ miss
      ]

module _ (u : ℕ) (Q : Room → Type 0) where
  -- A statement on every room of a key.
  abbrev Keyed : List Room → Type 0
  Keyed rooms = All (λ x. (x.uuid == u) ≡ true → Q x) rooms

  Keyed-none : (rooms : List Room) → find_room u rooms ≡ none → Keyed rooms
  unfolding find_room
  Keyed-none [] e = tt
  Keyed-none (x ∷ xs) e = elim (Bool-cases (x.uuid == u)) [
    | inl hit ↦ absurd (ground (arith, hit, e))
    | inr miss ↦
        (λ hit. absurd (ground (arith, hit, miss)), Keyed-none xs (ground (arith, miss, e)))
  ]

  -- With distinct keys it is one on the room that is found.
  Keyed-found :
      (r : Room) (rooms : List Room)
      → Distinct rooms
      → find_room u rooms ≡ some r
      → Q r
      → Keyed rooms
  unfolding find_room
  Keyed-found r [] d e q = tt
  Keyed-found r (x ∷ xs) d e q = elim (Bool-cases (x.uuid == u)) [
    | inl hit ↦
        let is : x ≡ r = ground (arith, hit, e) in
        (
          λ k. subst Q (sym is) q,
          Keyed-none xs (subst (λ k. find_room k xs ≡ none) ((==_iff x.uuid u).0 hit) d.0),
        )
    | inr miss ↦ (
      λ hit. absurd (ground (arith, hit, miss)),
      Keyed-found r xs d.1 (ground (arith, miss, e)) q,
    )
  ]

early_rooms :
    (now u : ℕ) (rooms : List Room)
    → Keyed u (λ x. (eligible_warn x && due_for_warning now x) ≡ false) rooms
    → Keyed u (λ x. due_for_warning now x ≡ false) (select eligible_warn rooms)
early_rooms now u [] a = tt
early_rooms now u (x ∷ xs) a = elim (Bool-cases (eligible_warn x)) [
  | inl e ↦ rw e (
    λ hit. subst (λ b. (b && due_for_warning now x) ≡ false) e (a.0 hit),
    early_rooms now u xs a.1,
  )
  | inr e ↦ rw e (early_rooms now u xs a.1)
]

-- A run of warnings leaves the row of a room alone that is not eligible, or whose time has not run
-- out, where primary keys are distinct.
pub warn_inactive_rooms-others :
    (now most u : ℕ) (r : Room) (s : State)
    → Distinct s.db.rooms
    → find_room u s.db.rooms ≡ some r
    → (eligible_warn r && due_for_warning now r) ≡ false
    → find_room u (warn_inactive_rooms now most s).1.db.rooms ≡ some r
unfolding warn_inactive_rooms
warn_inactive_rooms-others now most u r s keys row early =
    warn_loop-row u now most 0 (select eligible_warn s.db.rooms) s (
      early_rooms now u s.db.rooms (
        Keyed-found u (λ x. (eligible_warn x && due_for_warning now x) ≡ false) r s.db.rooms keys
          row early))
    ∙ row
