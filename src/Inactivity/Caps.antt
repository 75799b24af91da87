-- ===== src/Inactivity/Caps.antt =====
-- The caps on warnings and closures in one run (chats/apps/rooms/usecases/inactivity.py).
use chats_engine.Prelude.{
  ℕ, suc, ◌+◌, ◌≤◌, inl, inr, Bool, true, false, List, [], ◌∷◌, leb, count_if, select, Bool-cases,
  Option-cases, arith,
}
use chats_engine.Store.{Queue, Room, Db, Result}
use chats_engine.InService.{Celery}
use chats_engine.Inactivity.{
  State, eligible_warn, eligible_close, due_for_warning, due_for_closure, or_zero,
}
use chats_engine.Inactivity.Service.{
  warn_room, warn_loop, warn_inactive_rooms, close_room, close_loop, close_inactive_rooms,
}

warn_loop-cap :
    (now most warned : ℕ) (rs : List Room) (s : State)
    → warned ≤ most
    → ((warn_loop now most warned rs s).0 ≤ most)
      × ((warn_loop now most warned rs s).0 ≤ warned + count_if (due_for_warning now) rs)
unfolding warn_loop
warn_loop-cap now most warned [] s h = (h, omega arith)
warn_loop-cap now most warned (r ∷ rs) s h = elim (Bool-cases (leb most warned)) [
  | inl full ↦ rw full (h, omega arith)
  | inr room_for ↦ rw room_for (elim (Bool-cases (due_for_warning now r)) [
    | inl due ↦ rw due (elim (Bool-cases (warn_room now r s).0) [
      | inl did ↦
          let ih =
            warn_loop-cap now most (suc warned) rs (warn_room now r s).1
              (ground (arith, room_for)) in
          rw did (ih.0, omega (arith, ih.1))
      | inr failed ↦
          let ih = warn_loop-cap now most warned rs (warn_room now r s).1 h in
          rw failed (ih.0, omega (arith, ih.1))
    ])
    | inr early ↦
        let ih = warn_loop-cap now most warned rs s h in rw early (ih.0, omega (arith, ih.1))
  ])
]

module _ (celery : Celery) (calc_metrics : Bool) (start : Queue → Db → Result (Unit {0}) × Db) where
  close_loop-cap :
      (now most closed : ℕ) (rs : List Room) (s : State)
      → closed ≤ most
      → (or_zero (close_loop celery calc_metrics start now most closed rs s).0 ≤ most)
        × (or_zero (close_loop celery calc_metrics start now most closed rs s).0
            ≤ closed + count_if (due_for_closure now) rs)
  unfolding close_loop
  close_loop-cap now most closed [] s h = (h, omega arith)
  close_loop-cap now most closed (r ∷ rs) s h = elim (Bool-cases (leb most closed)) [
    | inl full ↦ rw full (h, omega arith)
    | inr room_for ↦ rw room_for (elim (Bool-cases (due_for_closure now r)) [
      | inr early ↦
          let ih = close_loop-cap now most closed rs s h in rw early (ih.0, omega (arith, ih.1))
      | inl due ↦ rw due (elim (Option-cases (close_room celery calc_metrics start now r s).0) [
        | inl e ↦ rw e (omega arith, omega arith)
        | inr (true, e) ↦
            let ih =
              close_loop-cap now most (suc closed) rs
                (close_room celery calc_metrics start now r s).1 (ground (arith, room_for)) in
            rw e (ih.0, omega (arith, ih.1))
        | inr (false, e) ↦
            let ih =
              close_loop-cap now most closed rs (close_room celery calc_metrics start now r s).1
                h in
            rw e (ih.0, omega (arith, ih.1))
      ])
    ])
  ]

  -- A run that warns, and a run that closes, count at most as many rooms as the cap of the run, and
  -- at most as many as there are eligible rooms whose time has run out.
  pub runs-cap :
      (now most : ℕ) (s : State)
      → ((warn_inactive_rooms now most s).0 ≤ most)
        × ((warn_inactive_rooms now most s).0
            ≤ count_if (due_for_warning now) (select eligible_warn s.db.rooms))
        × (or_zero (close_inactive_rooms celery calc_metrics start now most s).0 ≤ most)
        × (or_zero (close_inactive_rooms celery calc_metrics start now most s).0
            ≤ count_if (due_for_closure now) (select eligible_close s.db.rooms))
  unfolding warn_inactive_rooms close_inactive_rooms
  runs-cap now most s =
      let w = warn_loop-cap now most 0 (select eligible_warn s.db.rooms) s (omega arith) in
      let c = close_loop-cap now most 0 (select eligible_close s.db.rooms) s (omega arith) in
      (w.0, omega (arith, w.1), c.0, omega (arith, c.1))
