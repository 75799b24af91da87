-- ===== src/Store/Tables.antt =====
-- Queries and updates of the tables (the Django managers that chats/apps uses).
use chats_engine.Prelude.{
  ℕ, ◌+◌, ◌≡◌, refl, ap, subst, ◌∙◌, inl, inr, Bool, false, not, ◌&&◌, Option, none, some, List, [],
  ◌∷◌, arith, ◌==◌, ==_iff, if◌then◌else◌, find_first, count_if, Bool-cases,
}
use chats_engine.Store.{Queue, Room, Db, Effect}

-- `Room.objects.filter(pk=uuid).first()`
unfoldable pub find_room : ℕ → List Room → Option Room
find_room uuid rooms = find_first (λ r. r.uuid == uuid) rooms

-- `Model.save`: the row of that primary key is replaced, or the row is added.
unfoldable pub put_room : Room → List Room → List Room
put_room r [] = r ∷ []
put_room r (x ∷ xs) = if x.uuid == r.uuid then r ∷ xs else x ∷ put_room r xs

-- `queue__sector__project=project`
abbrev pub in_project : ℕ → Option Queue → Bool
in_project project none = false
in_project project (some q) = q.sector.project.uuid == project

-- `queue__sector=sector`
abbrev pub in_sector : ℕ → Option Queue → Bool
in_sector sector none = false
in_sector sector (some q) = q.sector.uuid == sector

-- `queue=queue`
abbrev pub in_queue : ℕ → Option Queue → Bool
in_queue queue none = false
in_queue queue (some q) = q.uuid == queue

abbrev pub send : Effect → Db → Db
send e db = record db { outbox = e ∷ db.outbox }

abbrev pub send_if : Bool → Effect → Db → Db
send_if b e db = if b then send e db else db

pub find_room-put_room :
    (uuid : ℕ) (r : Room) (rooms : List Room)
    → find_room uuid (put_room r rooms) ≡ (if r.uuid == uuid then some r else find_room uuid rooms)
unfolding find_room put_room
find_room-put_room uuid r [] = refl
find_room-put_room uuid r (x ∷ xs) = ground (arith, find_room-put_room uuid r xs)

pub find_room-put_room_self :
    (r : Room) (rooms : List Room) → find_room r.uuid (put_room r rooms) ≡ some r
find_room-put_room_self r rooms = rw (find_room-put_room r.uuid r rooms) (ground arith)

-- The rows of a table that are not the given room count the same before and after a save.
abbrev pub others : (Room → Bool) → ℕ → List Room → ℕ
others p uuid rooms = count_if (λ r. p r && not (r.uuid == uuid)) rooms

others-put_room :
    (p : Room → Bool) (r : Room) (rooms : List Room)
    → others p r.uuid (put_room r rooms) ≡ others p r.uuid rooms
unfolding put_room
others-put_room p r [] = ground arith
others-put_room p r (x ∷ xs) = ground (arith, others-put_room p r xs)

-- Primary keys.
abbrev pub Distinct : List Room → Type 0
Distinct [] = Unit
Distinct (r ∷ rooms) = (find_room r.uuid rooms ≡ none) × Distinct rooms

pub put_room-Distinct :
    (r : Room) (rooms : List Room) → Distinct rooms → Distinct (put_room r rooms)
unfolding put_room
put_room-Distinct r [] h = (unfold find_room in refl, tt)
put_room-Distinct r (x ∷ xs) h = elim (Bool-cases (x.uuid == r.uuid)) [
  | inl hit ↦
      rw (hit, put_room)
        (subst (λ k. find_room k xs ≡ none) ((==_iff x.uuid r.uuid).0 hit) h.0, h.1)
  | inr new ↦
      rw (new, put_room)
        (find_room-put_room x.uuid r xs ∙ ground (arith, h.0), put_room-Distinct r xs h.1)
]

others-absent :
    (p : Room → Bool) (uuid : ℕ) (rooms : List Room)
    → find_room uuid rooms ≡ none
    → others p uuid rooms ≡ count_if p rooms
unfolding find_room
others-absent p uuid [] h = refl
others-absent p uuid (x ∷ xs) h = ground (arith, others-absent p uuid xs)

abbrev pub count_one : (Room → Bool) → Option Room → ℕ
count_one p none = 0
count_one p (some r) = if p r then 1 else 0

-- A count of rooms, the row of one primary key apart.
count_if-find_room :
    (p : Room → Bool) (uuid : ℕ) (rooms : List Room)
    → Distinct rooms
    → count_if p rooms ≡ others p uuid rooms + count_one p (find_room uuid rooms)
unfolding find_room
count_if-find_room p uuid [] h = refl
count_if-find_room p uuid (x ∷ xs) h = elim (Bool-cases (x.uuid == uuid)) [
  | inl hit ↦ ground (
    arith,
    others-absent p uuid xs (subst (λ k. find_room k xs ≡ none) ((==_iff x.uuid uuid).0 hit) h.0),
    hit,
  )
  | inr new ↦ ground (arith, count_if-find_room p uuid xs h.1, new)
]

-- How a save changes a count: the new row counts in place of the old one.
pub count_if-put_room :
    (p : Room → Bool) (r : Room) (rooms : List Room)
    → Distinct rooms
    → count_if p (put_room r rooms) + count_one p (find_room r.uuid rooms)
      ≡ count_if p rooms + count_one p (some r)
count_if-put_room p r rooms h = omega (
  arith,
  count_if-find_room p r.uuid rooms h,
  count_if-find_room p r.uuid (put_room r rooms) (put_room-Distinct r rooms h),
  others-put_room p r rooms,
  ap (count_one p) (find_room-put_room_self r rooms),
)
