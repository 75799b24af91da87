-- ===== src/Inactivity/Reset.antt =====
-- What a reset of the inactivity flag does (chats/apps/rooms/usecases/inactivity.py).
use chats_engine.Prelude.{
  ℕ, ◌≡◌, refl, ap, ◌∙◌, inl, inr, Bool, true, false, not, ◌&&◌, ◌||◌, List, [], ◌∷◌, map, arith,
  ◌==◌, if◌then◌else◌, count_if, Bool-cases,
}
use chats_engine.Store.{Room}
use chats_engine.Inactivity.{State, update_rows}
use chats_engine.Inactivity.Service.{reset_inactivity, notify_inactivity}
use chats_engine.Inactivity.Warned.{inactivity_event-rooms}

-- An open row of the key that has the flag.
abbrev pub is_flagged : ℕ → Room → Bool
is_flagged room x = x.uuid == room && x.is_active && x.is_inactive

abbrev cleared : ℕ → List Room → List Room
cleared room rooms =
    map (λ x. if x.uuid == room && x.is_active then record x { is_inactive = false } else x) rooms

cleared-none : (room : ℕ) (rooms : List Room) → count_if (is_flagged room) (cleared room rooms) ≡ 0
cleared-none room [] = refl
cleared-none room (x ∷ xs) = elim (Bool-cases (x.uuid == room && x.is_active)) [
  | inl e ↦ rw e (ground (arith, cleared-none room xs))
  | inr e ↦ rw e (ground (arith, e, cleared-none room xs))
]

-- A reset answers whether the instance is open and has the flag; then no open row of its key has the
-- flag afterwards, and otherwise as many as before.
pub reset_inactivity-clears :
    (r : Room) (s : State)
    → ((reset_inactivity r s).0 ≡ (r.is_active && r.is_inactive))
      × (count_if (is_flagged r.uuid) (reset_inactivity r s).1.db.rooms
          ≡ (if r.is_active && r.is_inactive then 0 else count_if (is_flagged r.uuid) s.db.rooms))
unfolding reset_inactivity
reset_inactivity-clears r s =
    pick r.is_active r.is_inactive
      (notify_inactivity r (
        update_rows (λ x. x.uuid == r.uuid && x.is_active) (λ x. record x { is_inactive = false })
          s))
      (ap (count_if (is_flagged r.uuid)) (inactivity_event-rooms 0 r.uuid r.user r.queue _)
        ∙ cleared-none r.uuid s.db.rooms)
  where
    pick :
        (a b : Bool) (y : State)
        → count_if (is_flagged r.uuid) y.db.rooms ≡ 0
        → let o : Bool × State = (if not a || not b then (false, s) else (true, y)) in
          (o.0 ≡ (a && b))
          × (count_if (is_flagged r.uuid) o.1.db.rooms
              ≡ (if a && b then 0 else count_if (is_flagged r.uuid) s.db.rooms))
    pick true true y h = (refl, h)
    pick true false y h = (refl, refl)
    pick false b y h = (refl, refl)
