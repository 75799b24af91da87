-- ===== src/Bulk/Take/Keeping.antt =====
-- Which rooms `BulkTakeService.take` leaves alone
-- (chats/apps/api/v1/rooms/services/bulk_take_service.py).
use chats_engine.Prelude.{
  ℕ, suc, ◌≡◌, refl, ap, sym, ◌∙◌, subst, inl, inr, Bool, true, false, not, ◌||◌, none, some, List,
  [], ◌∷◌, arith, ◌==◌, ==_iff, if◌then◌else◌, is_some, any, select, All, Bool-cases,
}
use chats_engine.Store.{Room, Db, Result, ok, err}
use chats_engine.Store.Tables.{find_room, Distinct}
use chats_engine.Store.Action.{Action, bind}
use chats_engine.Queues.Router.{Turn}
use chats_engine.Bulk.{Outside}
use chats_engine.Bulk.Loop.{Outcome, Tally, count, room_loop, rooms_in}
use chats_engine.Bulk.Transfer.Atomic.{OnlyMoved}
use chats_engine.Bulk.Take.{take_one}
use chats_engine.Bulk.Take.Turns.{MaybeMoved, Takes, take_one-Takes}

-- Taking the room does not concern the row of that key.
abbrev spares : ℕ → Room → Bool
spares id r = is_some r.user || not (r.uuid == id)

only_other :
    (user : ℕ) (r : Room) (id : ℕ) (before db : Db)
    → (r.uuid == id) ≡ false
    → OnlyMoved (some user) r.queue r.uuid before db
    → find_room id db.rooms ≡ find_room id before.rooms
only_other user r id before db other (row, _, _, rows) =
    rows id ∙ ap (λ b. if b then some row else find_room id before.rooms) other

maybe_other :
    (user : ℕ) (r : Room) (id : ℕ) (before db : Db)
    → (r.uuid == id) ≡ false
    → MaybeMoved user r before db
    → find_room id db.rooms ≡ find_room id before.rooms
maybe_other user r id before db other (inl kept) = ap (find_room id) kept
maybe_other user r id before db other (inr only) = only_other user r id before db other only

other_of : (r : Room) (id : ℕ) → r.user ≡ none → spares id r ≡ true → (r.uuid == id) ≡ false
other_of r id free h = ground (arith, free, h)

turn_spares :
    (user : ℕ) (r : Room) (id : ℕ) (before : Db) (x : Result Outcome × Db)
    → spares id r ≡ true
    → Takes user r before x
    → find_room id x.1.rooms ≡ find_room id before.rooms
turn_spares user r id before (x, db) h (inl (_, _, same)) =
    ap (λ (d : Db). find_room id d.rooms) same
turn_spares user r id before (x, db) h (inr (inl (_, _, free, maybe))) =
    maybe_other user r id before db (other_of r id free h) maybe
turn_spares user r id before (x, db) h (inr (inr (_, free, only))) =
    only_other user r id before db (other_of r id free h) only

-- In a table with distinct keys, every row but that one is another room.
strangers :
    (id : ℕ) (rooms : List Room) → find_room id rooms ≡ none → All (λ r. spares id r ≡ true) rooms
unfolding find_room
strangers id [] h = tt
strangers id (r ∷ rooms) h = elim (Bool-cases (r.uuid == id)) [
  | inl hit ↦ absurd (ground (arith, hit, h))
  | inr other ↦ (ground (arith, other), strangers id rooms (ground (arith, other, h)))
]

owned : (r a : Room) (id : ℕ) → some r ≡ some a → is_some a.user ≡ true → spares id r ≡ true
owned r a id e u =
    let same_row : r ≡ a = ground (arith, e) in
    ap (λ b. b || not (r.uuid == id)) (ap (λ (x : Room). is_some x.user) same_row ∙ u)

all_spared :
    (id : ℕ) (a : Room) (rooms : List Room)
    → Distinct rooms
    → find_room id rooms ≡ some a
    → is_some a.user ≡ true
    → All (λ r. spares id r ≡ true) rooms
unfolding find_room
all_spared id a [] d h u = tt
all_spared id a (r ∷ rooms) d h u = elim (Bool-cases (r.uuid == id)) [
  | inl hit ↦ (
    owned r a id (sym (ap (λ b. if b then some r else find_room id rooms) hit) ∙ h) u,
    strangers id rooms (subst (λ k. find_room k rooms ≡ none) ((==_iff r.uuid id).0 hit) d.0),
  )
  | inr other ↦ (ground (arith, other), all_spared id a rooms d.1 (ground (arith, other, h)) u)
]

selected :
    (P : Room → Type 0) (p : Room → Bool) (rooms : List Room) → All P rooms → All P (select p rooms)
selected P p [] h = tt
selected P p (r ∷ rooms) h = elim (Bool-cases (p r)) [
  | inl in_ ↦ rw in_ (h.0, selected P p rooms h.1)
  | inr out ↦ rw out (selected P p rooms h.1)
]

module _ (o : Outside) (user : ℕ) (world : ℕ → Turn) (id : ℕ) where
  abbrev one : ℕ → Room → Action Outcome
  one now = take_one o now user

  after_turn :
      (n : ℕ) (r : Room) (rs : List Room) (t : Tally) (before : Db) (x : Result Outcome × Db)
      → find_room id x.1.rooms ≡ find_room id before.rooms
      → ((x : Outcome) (db : Db)
          → find_room id (room_loop o one world (suc n) rs (count r.uuid x t) db).1.rooms
            ≡ find_room id db.rooms)
      → find_room id (bind x (λ x. room_loop o one world (suc n) rs (count r.uuid x t))).1.rooms
        ≡ find_room id before.rooms
  after_turn n r rs t before (ok x, db) e rest = rest x db ∙ e
  after_turn n r rs t before (err x, db) e rest = e

  loop_spares :
      ((n : ℕ) (db : Db) → (world n).others db ≡ db)
      → (n : ℕ) (rooms : List Room) (t : Tally) (db : Db) → All (λ r. spares id r ≡ true) rooms
      → find_room id (room_loop o one world n rooms t db).1.rooms ≡ find_room id db.rooms
  unfolding room_loop
  loop_spares quiet n [] t db h = refl
  loop_spares quiet n (r ∷ rs) t db h =
      after_turn n r rs t db (one (world n).now r ((world n).others db))
        (turn_spares user r id ((world n).others db) (one (world n).now r ((world n).others db)) h.0
            (take_one-Takes o (world n).now user r ((world n).others db))
          ∙ ap (λ (d : Db). find_room id d.rooms) (quiet n db))
        (λ x db'. loop_spares quiet (suc n) rs (count r.uuid x t) db' h.1)

-- A batch of a bulk take, whichever rooms it is asked for and however their turns end, never takes a
-- room from the user who has it: its row stays as it is, where primary keys are distinct and nothing
-- else is written meanwhile.
pub room_loop-keeps :
    (o : Outside) (user : ℕ) (world : ℕ → Turn) (pks : List ℕ) (n : ℕ) (t : Tally) (db : Db)
    (id : ℕ) (a : Room)
    → ((n : ℕ) (db : Db) → (world n).others db ≡ db)
    → Distinct db.rooms
    → find_room id db.rooms ≡ some a
    → is_some a.user ≡ true
    → find_room id (room_loop o (λ now. take_one o now user) world n (rooms_in pks db) t db).1.rooms
      ≡ some a
room_loop-keeps o user world pks n t db id a quiet distinct found served =
    loop_spares o user world id quiet n (rooms_in pks db) t db (
      selected (λ r. spares id r ≡ true) (λ r. any (λ pk. pk == r.uuid) pks) db.rooms
        (all_spared id a db.rooms distinct found served))
    ∙ found
