-- ===== src/Bulk/Transfer/Refinement.antt =====
-- What a batch of `BulkTransferService` promises of who serves which room, and in which queue
-- (chats/apps/api/v1/rooms/services/bulk_transfer_service.py).
use chats_engine.Prelude.{
  ℕ, suc, ◌+◌, ◌≡◌, refl, ap, sym, ◌∙◌, subst, inl, inr, Bool, true, false, ◌||◌, Option, none,
  some, List, [], ◌∷◌, arith, ◌==◌, if◌then◌else◌, is_some,
}
use mathlib.Core.Path.{fun_ext}
use chats_engine.Store.{Queue, Room, Db, Result, ok}
use chats_engine.Store.Tables.{find_room}
use chats_engine.Store.Action.{Action, bind}
use chats_engine.Queues.Router.{Turn}
use chats_engine.Bulk.{Outside, exception, add_success, add_failure}
use chats_engine.Bulk.Loop.{Outcome, succeeded, failed, Tally, count, room_loop}
use chats_engine.Bulk.Transfer.{transfer_one}
use chats_engine.Bulk.Transfer.Moves.{target_user, target_queue}
use chats_engine.Bulk.Transfer.Atomic.{OnlyMoved, Ends, transfer_one-atomic}

-- The abstract state: the user and the queue of each room that there is.
abbrev View : Type 0
View = ℕ → Option (Option ℕ × Option Queue)

abbrev place : Option Room → Option (Option ℕ × Option Queue)
place none = none
place (some r) = some (r.user, r.queue)

abbrev pub view : Db → View
view db id = place (find_room id db.rooms)

abbrev put : ℕ → Option ℕ → Option Queue → View → View
put uuid u q v id = if uuid == id then some (u, q) else v id

-- The specification of a batch: each room in turn either fails and moves nothing, or is put to the
-- target. `Spec rooms v w s f`: from `v` to `w`, with `s` successes and `f` failures.
pub data Spec (user : Option ℕ) (queue : Option Queue)
    : List Room → View → View → ℕ → ℕ → Type 0 where
  done : {v : View} → Spec user queue [] v v 0 0
  fails :
      {r : Room} {rooms : List Room} {v w : View} {s f : ℕ}
      → Spec user queue rooms v w s f
      → Spec user queue (r ∷ rooms) v w s (suc f)
  moves :
      {r : Room} {rooms : List Room} {v w : View} {s f : ℕ}
      → Spec user queue rooms
          (put r.uuid (target_user user queue r.user) (target_queue queue r.queue) v)
          w
          s
          f
      → Spec user queue (r ∷ rooms) v w (suc s) f

-- A loop that has ended does what the specification says, and counts it.
abbrev pub Refines : Option ℕ → Option Queue → List Room → View → Tally → Result Tally × Db → Type 0
Refines user queue rooms v t (x, db) =
    (t' : Tally) × (s : ℕ) × (f : ℕ) × (x ≡ ok t')
    × Spec user queue rooms v (view db) s f
    × (t'.result.success_count ≡ t.result.success_count + s)
    × (t'.result.failed_count ≡ t.result.failed_count + f)

placed :
    (b : Bool) (row : Room) (o : Option Room)
    → place (if b then some row else o) ≡ (if b then some (row.user, row.queue) else place o)
placed true row o = refl
placed false row o = refl

paired :
    {a b : Option ℕ} {c d : Option Queue}
    → a ≡ b
    → c ≡ d
    → let x : Option ℕ × Option Queue = (a, c) in x ≡ (b, d)
paired e f = cc

moved_view :
    (u : Option ℕ) (q : Option Queue) (uuid : ℕ) (before db : Db)
    → OnlyMoved u q uuid before db
    → view db ≡ put uuid u q (view before)
moved_view u q uuid before db (row, e, f, rows) = fun_ext (λ id.
    ap place (rows id)
    ∙ placed (uuid == id) row (find_room id before.rooms)
    ∙ ap (λ k. if uuid == id then some k else view before id) (paired e f))

module _ (o : Outside) (user_request : ℕ) (user : Option ℕ) (queue : Option Queue)
    (world : ℕ → Turn) where
  abbrev one : ℕ → Room → Action Outcome
  one now = transfer_one o now user_request user queue

  after_turn :
      (n : ℕ) (r : Room) (rs : List Room) (t : Tally) (before : Db) (x : Result Outcome × Db)
      → Ends (target_user user queue r.user) (target_queue queue r.queue) r before x
      → ((x : Outcome) (db : Db)
          → Refines user queue rs
              (view db)
              (count r.uuid x t)
              (room_loop o one world (suc n) rs (count r.uuid x t) db))
      → Refines user queue
          (r ∷ rs)
          (view before)
          t
          (bind x (λ x. room_loop o one world (suc n) rs (count r.uuid x t)))
  unfolding add_failure add_success
  after_turn n r rs t before (x, db) (inl (e, is, same)) rest =
      let (t', s, f, returned, spec, a, b) = rest (failed (exception r.uuid e)) db in
      let (y, db') =
        room_loop o one world (suc n) rs (count r.uuid (failed (exception r.uuid e)) t) db in
      rw is (
        t',
        s,
        suc f,
        returned,
        fails
            (subst (λ v. Spec user queue rs v (view db') s f) (ap (λ (d : Db). view d) same) spec),
        a,
        omega (arith, b),
      )
  after_turn n r rs t before (x, db) (inr (is, only)) rest =
      let won = succeeded (r.queue ∷ target_queue queue r.queue ∷ []) in
      let (t', s, f, returned, spec, a, b) = rest won db in
      let (y, db') = room_loop o one world (suc n) rs (count r.uuid won t) db in
      rw is (
        t',
        suc s,
        f,
        returned,
        moves (
            subst (λ v. Spec user queue rs v (view db') s f)
              (moved_view (target_user user queue r.user) (target_queue queue r.queue) r.uuid before
                db only)
              spec),
        omega (arith, a),
        b,
      )

  -- A batch of transfers to somewhere, while nothing else is written, returns, and refines the
  -- specification: each of its rooms in turn either keeps its user and queue, and counts as a
  -- failure, or gets those of the target, and counts as a success; no other room moves.
  pub room_loop-Refines :
      is_some user || is_some queue ≡ true
      → ((n : ℕ) (db : Db) → (world n).others db ≡ db)
      → (n : ℕ) (rooms : List Room) (t : Tally) (db : Db)
      → Refines user queue rooms (view db) t (room_loop o one world n rooms t db)
  unfolding room_loop
  room_loop-Refines target quiet n [] t db = (t, 0, 0, refl, done, omega arith, omega arith)
  room_loop-Refines target quiet n (r ∷ rs) t db =
      subst
        (λ d.
          Refines user queue (r ∷ rs) (view db) t (
            bind (one (world n).now r d)
              (λ x. room_loop o one world (suc n) rs (count r.uuid x t))))
        (sym (quiet n db))
        (after_turn n r rs t db (one (world n).now r db)
          (transfer_one-atomic o (world n).now user_request user queue r db target)
          (λ x db'. room_loop-Refines target quiet (suc n) rs (count r.uuid x t) db'))
